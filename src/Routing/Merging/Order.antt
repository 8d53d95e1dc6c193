-- ===== src/Routing/Merging/Order.antt =====
-- The order in which results are delivered to a channel does not matter.
use mathlib.Core.List.{Permᴰ}
use jarvis_development.Prelude.{
  Option, none, some, List, [], ◌∷◌, ◌≡◌, refl, sym, ◌∙◌, ap, subst, Dict, String, string_eq, ◌>>=◌,
  inl, inr, Option-cases, arith,
}
use jarvis_development.Routing.Merging.{IsDict, read, merge_by_id}
use jarvis_development.Routing.Merging.Reads.{join, Agree, merge_by_id-reads, merge_by_id-succeeds}

-- A dict of results that is delivered to the channel.
pub record Update (V : Type 0) : Type 0 where
  pub entries : Dict String V
  pub keyed : IsDict entries

module _ {V : Type 0} (canonical_json : V → String) where
  -- The channel after the deliveries, unless one of them conflicts.
  unfoldable pub deliver : Dict String V → List (Update V) → Option (Dict String V)
  deliver d [] = some d
  deliver d (u ∷ us) = merge_by_id canonical_json d u.entries >>= (λ m. deliver m us)

  -- Both dicts have the same value at every key.
  abbrev pub Same : Dict String V → Dict String V → Type 0
  Same d e = (key : String) → read canonical_json d key ≡ read canonical_json e key

  Agree-Same :
      (d e u : Dict String V) → Same d e → Agree canonical_json d u → Agree canonical_json e u
  Agree-Same d e u same agree key a b p q = agree key a b (same key ∙ p) q

  merge-Same :
      (d e : Dict String V) (u : Update V) {m : Dict String V}
      → Same d e
      → merge_by_id canonical_json d u.entries ≡ some m
      → (n : Dict String V) × (merge_by_id canonical_json e u.entries ≡ some n) × Same m n
  merge-Same d e u same h =
      let (agree, reads) = merge_by_id-reads canonical_json d u.entries h in
      let (n, i) =
        merge_by_id-succeeds canonical_json e u.entries u.keyed
          (Agree-Same d e u.entries same agree) in
      let (_, reads') = merge_by_id-reads canonical_json e u.entries i in
      (
        n,
        i,
        λ key.
            reads key
            ∙ ap (λ r. join r (read canonical_json u.entries key)) (same key)
            ∙ sym (reads' key),
      )

  -- What a second delivery agrees with, it agrees with before the first.
  Agree-before :
      (d u v m : Dict String V)
      → ((key : String)
          → read canonical_json m key
            ≡ join (read canonical_json d key) (read canonical_json u key))
      → Agree canonical_json m v
      → Agree canonical_json d v
  Agree-before d u v m reads agree key a b p q =
      agree key a b (reads key ∙ ap (λ r. join r (read canonical_json u key)) p) q

  -- The first delivery agrees with what the second leaves.
  Agree-after :
      (d u v m n : Dict String V)
      → ((key : String)
          → read canonical_json m key
            ≡ join (read canonical_json d key) (read canonical_json u key))
      → ((key : String)
          → read canonical_json n key
            ≡ join (read canonical_json d key) (read canonical_json v key))
      → Agree canonical_json d u
      → Agree canonical_json m v
      → Agree canonical_json n u
  Agree-after d u v m n reads reads' first second key a b p q =
      elim (Option-cases (read canonical_json d key)) [
        | inl absent ↦ sym (
            second key b a (reads key ∙ ap (λ r. join r (read canonical_json u key)) absent ∙ q)
              (sym (ap (λ r. join r (read canonical_json v key)) absent) ∙ sym (reads' key) ∙ p))
        | inr (c, stored) ↦
            first key a b
              (stored
                ∙ sym (ap (λ r. join r (read canonical_json v key)) stored)
                ∙ sym (reads' key)
                ∙ p)
              q
      ]

  join-swap :
      (a b c : Option String)
      → ((x y : String) → join a b ≡ some x → c ≡ some y → x ≡ y)
      → join (join a b) c ≡ join (join a c) b
  join-swap (some x) b c agree = refl
  join-swap none none none agree = refl
  join-swap none none (some y) agree = refl
  join-swap none (some x) none agree = refl
  join-swap none (some x) (some y) agree = ap some (agree x y refl refl)

  merge-swap :
      (d : Dict String V) (u v : Update V) {m n : Dict String V}
      → merge_by_id canonical_json d u.entries ≡ some m
      → merge_by_id canonical_json m v.entries ≡ some n
      → (m' n' : Dict String V) × (merge_by_id canonical_json d v.entries ≡ some m')
        × (merge_by_id canonical_json m' u.entries ≡ some n')
        × Same n n'
  merge-swap d u v {m} {n} h i =
      let (first, reads) = merge_by_id-reads canonical_json d u.entries h in
      let (second, reads2) = merge_by_id-reads canonical_json m v.entries i in
      let (m', h') =
        merge_by_id-succeeds canonical_json d v.entries v.keyed
          (Agree-before d u.entries v.entries m reads second) in
      let (_, reads') = merge_by_id-reads canonical_json d v.entries h' in
      let (n', i') =
        merge_by_id-succeeds canonical_json m' u.entries u.keyed
          (Agree-after d u.entries v.entries m m' reads reads' first second) in
      let (_, reads2') = merge_by_id-reads canonical_json m' u.entries i' in
      (
        m',
        n',
        h',
        i',
        λ key.
            reads2 key
            ∙ ap (λ r. join r (read canonical_json v.entries key)) (reads key)
            ∙ join-swap (read canonical_json d key) (read canonical_json u.entries key)
                (read canonical_json v.entries key) (λ x y p q. second key x y (reads key ∙ p) q)
            ∙ sym (ap (λ r. join r (read canonical_json u.entries key)) (reads' key))
            ∙ sym (reads2' key),
      )

  deliver-first :
      (d : Dict String V) (u : Update V) (us : List (Update V)) {n : Dict String V}
      → deliver d (u ∷ us) ≡ some n
      → (m : Dict String V) × (merge_by_id canonical_json d u.entries ≡ some m)
        × (deliver m us ≡ some n)
  unfolding deliver
  deliver-first d u us h = elim (Option-cases (merge_by_id canonical_json d u.entries)) [
    | inl e ↦ absurd (ground (arith, h, e))
    | inr (m, e) ↦ (m, e, ground (arith, h, e))
  ]

  deliver-cons :
      (d : Dict String V) (u : Update V) (us : List (Update V)) {m n : Dict String V}
      → merge_by_id canonical_json d u.entries ≡ some m
      → deliver m us ≡ some n
      → deliver d (u ∷ us) ≡ some n
  unfolding deliver
  deliver-cons d u us h i = rw (h, deliver) i

  deliver-Same :
      (us : List (Update V)) (d e : Dict String V) {m : Dict String V}
      → Same d e
      → deliver d us ≡ some m
      → (n : Dict String V) × (deliver e us ≡ some n) × Same m n
  unfolding deliver
  deliver-Same [] d e {m} same h =
      (e, refl, subst (λ x. Same x e) (let its : d ≡ m = cc in its) same)
  deliver-Same (u ∷ us) d e same h =
      let (m1, first, rest) = deliver-first d u us h in
      let (n1, first', same1) = merge-Same d e u same first in
      let (n, rest', same2) = deliver-Same us m1 n1 same1 rest in
      (n, deliver-cons e u us first' rest', same2)

  -- If results can be delivered to a channel in one order, they can be in every order, and the
  -- channel then has the same value at every key.
  pub deliver-Perm :
      {us vs : List (Update V)} (d : Dict String V) {m : Dict String V}
      → Permᴰ us vs
      → deliver d us ≡ some m
      → (n : Dict String V) × (deliver d vs ≡ some n) × Same m n
  deliver-Perm d {m} Permᴰ.nil h = (m, h, λ key. refl)
  deliver-Perm d (Permᴰ.cons {a} {b} {l₁ = us} {l₂ = vs} e p) h =
      let (m1, first, rest) = deliver-first d a us h in
      let (n, rest', same) = deliver-Perm m1 p rest in
      (
        n,
        deliver-cons d b vs
            (subst (λ (u : Update V). merge_by_id canonical_json d u.entries ≡ some m1) e first)
            rest',
        same,
      )
  deliver-Perm d (Permᴰ.swap {a} {b} {a'} {b'} {l = us} e f) h =
      let (m1, first, rest) = deliver-first d a (b ∷ us) h in
      let (m2, second, rest2) = deliver-first m1 b us rest in
      let (n1, n2, first', second', same) = merge-swap d a b first second in
      let (n, rest', same') = deliver-Same us m2 n2 same rest2 in
      (
        n,
        deliver-cons d a' (b' ∷ us)
            (subst (λ (u : Update V). merge_by_id canonical_json d u.entries ≡ some n1) f first')
            (deliver-cons n1 b' us
              (subst (λ (u : Update V). merge_by_id canonical_json n1 u.entries ≡ some n2) e
                second')
              rest'),
        same',
      )
  deliver-Perm d (Permᴰ.trans p q) h =
      let (m1, first, same) = deliver-Perm d p h in
      let (n, second, same') = deliver-Perm d q first in (n, second, λ key. same key ∙ same' key)
