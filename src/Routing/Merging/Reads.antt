-- ===== src/Routing/Merging/Reads.antt =====
-- When a merge of results succeeds, and what it holds then.
use jarvis_development.Prelude.{
  true, Option, none, some, [], ◌∷◌, ◌≡◌, refl, sym, ◌∙◌, ap, subst, Dict, get, put, get-put,
  String, string_eq, ◌==◌, ◌⊎◌, inl, inr, Bool-cases, Option-cases, arith, if◌then◌else◌,
}
use jarvis_development.Routing.Merging.{fits, IsDict, read, merge_by_id}

-- The first of two readings that is there.
abbrev pub join : Option String → Option String → Option String
join none b = b
join (some a) b = some a

join-none : (a : Option String) → join a none ≡ a
join-none none = refl
join-none (some a) = refl

module _ {V : Type 0} (canonical_json : V → String) where
  -- Two dicts have the same value at every key that both have.
  abbrev pub Agree : Dict String V → Dict String V → Type 0
  Agree d e =
      (key a b : String)
      → read canonical_json d key ≡ some a
      → read canonical_json e key ≡ some b
      → a ≡ b

  pub read-put :
      (d : Dict String V) (k : String) (v : V) (key : String)
      → read canonical_json (put d k v) key
        ≡ (if k == key then some (canonical_json v) else read canonical_json d key)
  unfolding read
  read-put d k v key = ground (arith, get-put d k key v)

  pub read-cons :
      (d : Dict String V) (k : String) (v : V) (key : String)
      → read canonical_json ((k, v) ∷ d) key
        ≡ (if k == key then some (canonical_json v) else read canonical_json d key)
  unfolding read
  read-cons d k v key = ground arith

  fits-cases :
      (stored : Option String) (text : String)
      → fits stored text ≡ true
      → (stored ≡ none) ⊎ (stored ≡ some text)
  fits-cases none text h = inl refl
  fits-cases (some t) text h = inr (ap some ((string_eq.same_iff t text).0 h))

  read-nil : (key : String) → read canonical_json [] key ≡ none
  unfolding read
  read-nil key = refl

  unread :
      (e : Dict String V) (k key b : String)
      → get e k ≡ none
      → (k == key) ≡ true
      → read canonical_json e key ≡ some b
      → ⊥
  unfolding read
  unread e k key b new same q =
      let absent : get e key ≡ none = ap (get e) (sym ((string_eq.same_iff k key).0 same)) ∙ new in
      ground (arith, absent, q)

  -- The reading at a key that is about to be written.
  stored-cases :
      (d : Dict String V) (k : String) (v : V) (key : String)
      → fits (read canonical_json d k) (canonical_json v) ≡ true
      → (k == key) ≡ true
      → (read canonical_json d key ≡ none) ⊎ (read canonical_json d key ≡ some (canonical_json v))
  stored-cases d k v key f same =
      subst
        (λ j.
          (read canonical_json d j ≡ none) ⊎ (read canonical_json d j ≡ some (canonical_json v)))
        ((string_eq.same_iff k key).0 same)
        (fits-cases (read canonical_json d k) (canonical_json v) f)

  Agree-cons :
      (d e : Dict String V) (k : String) (v : V)
      → fits (read canonical_json d k) (canonical_json v) ≡ true
      → Agree (put d k v) e
      → Agree d ((k, v) ∷ e)
  Agree-cons d e k v f agree key a b p q = elim (Bool-cases (k == key)) [
    | inl same ↦
        let its : some (canonical_json v) ≡ some b = ground (arith, q, same, read-cons e k v key) in
        elim (stored-cases d k v key f same) [ inl absent ↦ cc | inr stored ↦ cc ]
    | inr other ↦
        agree key a b (ground (arith, p, other, read-put d k v key))
          (ground (arith, q, other, read-cons e k v key))
  ]

  join-cons :
      (d e : Dict String V) (k : String) (v : V) (key : String)
      → fits (read canonical_json d k) (canonical_json v) ≡ true
      → join (read canonical_json (put d k v) key) (read canonical_json e key)
        ≡ join (read canonical_json d key) (read canonical_json ((k, v) ∷ e) key)
  join-cons d e k v key f =
      rw (read-put d k v key, read-cons e k v key)
        (elim (Bool-cases (k == key)) [
          | inl same ↦ elim (stored-cases d k v key f same) [
            | inl absent ↦ rw (same, absent) refl
            | inr stored ↦ rw (same, stored) refl
          ]
          | inr other ↦ rw other refl
        ])

  pub merge_by_id-reads :
      (d e : Dict String V) {m : Dict String V}
      → merge_by_id canonical_json d e ≡ some m
      → Agree d e
        × ((key : String)
            → read canonical_json m key
              ≡ join (read canonical_json d key) (read canonical_json e key))
  unfolding merge_by_id
  merge_by_id-reads d [] {m} h =
      let same : d ≡ m = cc in
      (
        λ key a b p q. (let none_some : none ≡ some b = sym (read-nil key) ∙ q in cc),
        λ key. rw (read-nil key) (
            subst (λ n. read canonical_json n key ≡ join (read canonical_json d key) none) same
              (sym (join-none (read canonical_json d key)))),
      )
  merge_by_id-reads d ((k, v) ∷ e) {m} h =
      elim (Bool-cases (fits (read canonical_json d k) (canonical_json v))) [
        | inl f ↦
            let rest : merge_by_id canonical_json (put d k v) e ≡ some m = ground (arith, h, f) in
            let (agree, reads) = merge_by_id-reads (put d k v) e rest in
            (Agree-cons d e k v f agree, λ key. reads key ∙ join-cons d e k v key f)
        | inr f ↦ absurd (ground (arith, h, f))
      ]

  Agree-fits :
      (d e : Dict String V) (k : String) (v : V)
      → Agree d ((k, v) ∷ e)
      → fits (read canonical_json d k) (canonical_json v) ≡ true
  Agree-fits d e k v agree = elim (Option-cases (read canonical_json d k)) [
    | inl absent ↦ rw absent refl
    | inr (t, stored) ↦ rw stored (
        (string_eq.same_iff t (canonical_json v)).1 (
          agree k t (canonical_json v) stored
            (read-cons e k v k ∙ ground (arith, (string_eq.same_iff k k).1 refl))))
  ]

  Agree-rest :
      (d e : Dict String V) (k : String) (v : V)
      → get e k ≡ none
      → Agree d ((k, v) ∷ e)
      → Agree (put d k v) e
  Agree-rest d e k v new agree key a b p q = elim (Bool-cases (k == key)) [
    | inl same ↦ absurd (unread e k key b new same q)
    | inr other ↦
        agree key a b (ground (arith, p, other, read-put d k v key))
          (ground (arith, q, other, read-cons e k v key))
  ]

  pub merge_by_id-succeeds :
      (d e : Dict String V)
      → IsDict e
      → Agree d e
      → (m : Dict String V) × (merge_by_id canonical_json d e ≡ some m)
  unfolding merge_by_id
  merge_by_id-succeeds d [] u agree = (d, refl)
  merge_by_id-succeeds d ((k, v) ∷ e) (new, rest) agree =
      let (m, h) = merge_by_id-succeeds (put d k v) e rest (Agree-rest d e k v new agree) in
      (m, rw (Agree-fits d e k v agree, merge_by_id) h)
