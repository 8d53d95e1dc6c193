-- ===== src/Contracts/Json.antt =====
-- JSON values as Python holds them, and Python's `==` and ordering on them. A finite float is
-- the exact number m / 2^k, so that comparing it with an int or a float is exact, as in Python.
use jarvis_development.Prelude.{
  ℕ, suc, ◌+◌, ◌*◌, ◌^◌, Bool, true, false, ◌&&◌, Option, none, some, if◌then◌else◌, ◌==◌, String,
  string_eq, ltb, nat_beq, nat_eq, Equal, ◌≡◌, ◌↔◌, arith,
}

-- `negsuc n` is -(n + 1).
pub data ℤ : Type 0 where
  pos : ℕ → ℤ
  negsuc : ℕ → ℤ

abbrev pub pos_part : ℤ → ℕ
pos_part (pos n) = n
pos_part (negsuc n) = 0

abbrev pub neg_part : ℤ → ℕ
neg_part (pos n) = 0
neg_part (negsuc n) = suc n

abbrev pub int_same : ℤ → ℤ → Bool
int_same (pos m) (pos n) = nat_beq m n
int_same (negsuc m) (negsuc n) = nat_beq m n
int_same m n = false

pub int_same_iff : (m n : ℤ) → (int_same m n ≡ true) ↔ (m ≡ n)
int_same_iff (pos m) (pos n) = ground (arith, nat_eq.same_iff m n)
int_same_iff (pos m) (negsuc n) = ground arith
int_same_iff (negsuc m) (pos n) = ground arith
int_same_iff (negsuc m) (negsuc n) = ground (arith, nat_eq.same_iff m n)

instance abbrev pub int_eq : Equal ℤ
int_eq = record { same = int_same; same_iff = int_same_iff }

mutual
  pub data Json : Type 0 where
    null : Json
    bool : Bool → Json
    int : ℤ → Json
    float : ℤ → ℕ → Json
    str : String → Json
    arr : Items → Json
    obj : Fields → Json

  pub data Items : Type 0 where
    nil : Items
    cons : Json → Items → Items

  pub data Fields : Type 0 where
    end : Fields
    field : String → Json → Fields → Fields

-- A number m / 2^k.
pub record Dyadic : Type 0 where
  pub numerator : ℤ
  pub scale : ℕ

-- `a < b` and `a == b`, cross-multiplied.
abbrev pub dyadic_lt : Dyadic → Dyadic → Bool
dyadic_lt a b =
    ltb (pos_part a.numerator * 2 ^ b.scale + neg_part b.numerator * 2 ^ a.scale)
      (pos_part b.numerator * 2 ^ a.scale + neg_part a.numerator * 2 ^ b.scale)

abbrev pub dyadic_eq : Dyadic → Dyadic → Bool
dyadic_eq a b =
    nat_beq (pos_part a.numerator * 2 ^ b.scale + neg_part b.numerator * 2 ^ a.scale)
      (pos_part b.numerator * 2 ^ a.scale + neg_part a.numerator * 2 ^ b.scale)

abbrev bool_number : Bool → ℤ
bool_number false = pos 0
bool_number true = pos 1

-- The number that Python compares: a bool is an int.
abbrev pub as_number : Json → Option Dyadic
as_number (bool b) = some (record { numerator = bool_number b; scale = 0 })
as_number (int n) = some (record { numerator = n; scale = 0 })
as_number (float m k) = some (record { numerator = m; scale = k })
as_number _ = none

abbrev pub lookup_field : Fields → String → Option Json
lookup_field end k = none
lookup_field (field j v fs) k = if j == k then some v else lookup_field fs k

abbrev pub count_fields : Fields → ℕ
count_fields end = 0
count_fields (field j v fs) = suc (count_fields fs)

abbrev number_eq : Json → Json → Bool
number_eq a b = elim (as_number a) [
  | none ↦ false
  | some x ↦ elim (as_number b) [ none ↦ false | some y ↦ dyadic_eq x y ]
]

-- Python's `==` on JSON data; objects compare without order.
unfoldable mutual
  pub py_eq : Json → Json → Bool
  py_eq null b = elim b [ null ↦ true | _ ↦ false ]
  py_eq (bool a) b = number_eq (bool a) b
  py_eq (int a) b = number_eq (int a) b
  py_eq (float a k) b = number_eq (float a k) b
  py_eq (str a) b = elim b [ str c ↦ a == c | _ ↦ false ]
  py_eq (arr a) b = elim b [ arr c ↦ items_eq a c | _ ↦ false ]
  py_eq (obj a) b = elim b [
    | obj c ↦ nat_beq (count_fields a) (count_fields c) && fields_in a c
    | _ ↦ false
  ]

  pub items_eq : Items → Items → Bool
  items_eq nil b = elim b [ nil ↦ true | _ ↦ false ]
  items_eq (cons x xs) b = elim b [ nil ↦ false | cons y ys ↦ py_eq x y && items_eq xs ys ]

  pub fields_in : Fields → Fields → Bool
  fields_in end c = true
  fields_in (field k v fs) c =
      elim (lookup_field c k) [ none ↦ false | some w ↦ py_eq v w ] && fields_in fs c
