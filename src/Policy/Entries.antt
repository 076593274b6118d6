-- ===== src/Policy/Entries.antt =====
-- Facts about lists of ledger entries: their total, and that no spend stands in one twice.
use bab_takehome.Base.{
  ℕ, ◌+◌, ◌≡◌, refl, true, false, List, [], ◌∷◌, ◌++◌, arith, any, Text, text_eq_iff, text_eq_refl,
  inl, inr, Bool-cases,
}
use bab_takehome.Policy.{Kind, purchase, bond, kind_eq, LedgerEntry, same_spend}

unfoldable pub total : List LedgerEntry → ℕ
total [] = 0
total (e ∷ es) = e.amount + total es

pub total-append :
    (es : List LedgerEntry) (e : LedgerEntry) → total (es ++ e ∷ []) ≡ total es + e.amount
unfolding total
total-append [] e = omega arith
total-append (x ∷ es) e = omega (arith, total-append es e)

-- No two entries are of one kind with one reference.
abbrev pub Distinct : List LedgerEntry → Type 0
Distinct [] = Unit {0}
Distinct (e ∷ es) = (any (same_spend e.kind e.ref) es ≡ false) × Distinct es

pub same_spend_comm :
    (x y : LedgerEntry) → same_spend x.kind x.ref y ≡ false → same_spend y.kind y.ref x ≡ false
same_spend_comm x y h = ground (arith, text_eq_iff y.ref x.ref, text_eq_iff x.ref y.ref)

kind_eq_refl : (k : Kind) → kind_eq k k ≡ true
kind_eq_refl purchase = refl
kind_eq_refl bond = refl

any-append_false :
    (x e : LedgerEntry) (es : List LedgerEntry)
    → any (same_spend x.kind x.ref) es ≡ false
    → same_spend x.kind x.ref e ≡ false
    → any (same_spend x.kind x.ref) (es ++ e ∷ []) ≡ false
any-append_false x e [] h k = ground arith
any-append_false x e (y ∷ es) h k = elim (Bool-cases (same_spend x.kind x.ref y)) [
  | inl t ↦ absurd (ground arith)
  | inr f ↦ rw f (any-append_false x e es (rw f at h) k)
]

pub Distinct-append :
    (e : LedgerEntry) (es : List LedgerEntry)
    → any (same_spend e.kind e.ref) es ≡ false
    → Distinct es
    → Distinct (es ++ e ∷ [])
Distinct-append e [] h d = (refl, tt)
Distinct-append e (y ∷ es) h (p, d) = elim (Bool-cases (same_spend e.kind e.ref y)) [
  | inl t ↦ absurd (ground arith)
  | inr f ↦ (any-append_false y e es p (same_spend_comm e y f), Distinct-append e es (rw f at h) d)
]

pub any-append_left :
    (kind : Kind) (ref : Text) (xs ys : List LedgerEntry)
    → any (same_spend kind ref) xs ≡ true
    → any (same_spend kind ref) (xs ++ ys) ≡ true
any-append_left kind ref [] ys h = cc
any-append_left kind ref (x ∷ xs) ys h = elim (Bool-cases (same_spend kind ref x)) [
  | inl t ↦ rw t
  | inr f ↦ rw f (any-append_left kind ref xs ys (rw f at h))
]

pub any-last :
    (e : LedgerEntry) (es : List LedgerEntry) → any (same_spend e.kind e.ref) (es ++ e ∷ []) ≡ true
any-last e [] = ground (arith, text_eq_refl e.ref, kind_eq_refl e.kind)
any-last e (x ∷ es) = ground (arith, any-last e es)
