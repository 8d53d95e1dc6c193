-- ===== src/Validation/Protected/States.antt =====
-- The entries of the worklist of `_protected_paths`.
use jarvis_development.Prelude.{
  Bool, true, false, List, [], ◌∷◌, ◌≡◌, ◌↔◌, ◌&&◌, refl, String, string_eq, ◌==◌, arith, Equal,
  contains, not,
}

-- `(node_id, verified, reviewed, verification_required)`
pub record PathState : Type 0 where
  pub node : String
  pub verified : Bool
  pub reviewed : Bool
  pub verification_required : Bool

abbrev pub bool_beq : Bool → Bool → Bool
bool_beq true b = b
bool_beq false b = not b

abbrev pub state_beq : PathState → PathState → Bool
state_beq s t =
    s.node == t.node
    && (bool_beq s.verified t.verified
        && (bool_beq s.reviewed t.reviewed
            && bool_beq s.verification_required t.verification_required))

pub state_beq_iff : (s t : PathState) → (state_beq s t ≡ true) ↔ (s ≡ t)
state_beq_iff s t = ground (arith, string_eq.same_iff s.node t.node)

instance abbrev pub PathState-eq : Equal PathState
PathState-eq = record { same = state_beq; same_iff = state_beq_iff }

abbrev state : String → Bool → Bool → Bool → PathState
state n v r q = record { node = n; verified = v; reviewed = r; verification_required = q }

-- Every state of every listed node: a bound on what the loop can push.
unfoldable pub all_states : List String → List PathState
all_states [] = []
all_states (n ∷ ns) =
    state n true true true
    ∷ state n true true false
    ∷ state n true false true
    ∷ state n true false false
    ∷ state n false true true
    ∷ state n false true false
    ∷ state n false false true
    ∷ state n false false false
    ∷ all_states ns

pub contains-all_states :
    (ns : List String) (s : PathState) → contains (all_states ns) s ≡ contains ns s.node
unfolding all_states
contains-all_states [] s = refl
contains-all_states (n ∷ ns) s = ground (arith, contains-all_states ns s)
