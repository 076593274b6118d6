-- ===== src/Tar/Paths/Safe.antt =====
-- The paths that `normalizeTarPath` returns.
use bab_takehome.Base.{
  ℕ, ◌≤◌, ◌≡◌, ◌≢◌, refl, sym, ap, subst, ◌∙◌, inl, inr, Bool, true, false, ◌||◌, List, [], ◌∷◌,
  ◌++◌, arith, length, any, All, ◌==◌, Bool-cases, Text, codes, text_eq, text_eq_iff, starts_with,
  ok, raise_if, raise_if-eq-ok, >>=-eq-ok, ok-injective,
}
use bab_takehome.Tar.Paths.{
  empty_path, nul_in_path, backslash_in_path, absolute_path, drive_letter, unsafe_path, slash,
  split, ends_with_slash, drop_last, has_drive_letter, is_unsafe, trim, has_unit,
  normalize_tar_path,
}
use bab_takehome.Tar.Paths.Segments.{split-append}

pub any-append :
    {A : Type 0} (f : A → Bool) (xs ys : List A) → any f (xs ++ ys) ≡ any f xs || any f ys
any-append f [] ys = refl
any-append f (x ∷ xs) ys = ground (arith, any-append f xs ys)

slash_last : (p : Text) → ends_with_slash p ≡ true → p ≡ drop_last p ++ slash ∷ []
unfolding ends_with_slash drop_last
slash_last [] h = absurd (ground arith)
slash_last (c ∷ []) h = ap (λ (d : ℕ). d ∷ []) (ground arith)
slash_last (c ∷ d ∷ s) h = ap (λ (t : Text). c ∷ t) (slash_last (d ∷ s) h)

-- A path that ends in a slash has an empty segment.
slash_last-unsafe : (p : Text) → ends_with_slash p ≡ true → any is_unsafe (split p) ≡ true
unfolding text_eq
slash_last-unsafe p h =
    ap (λ (t : Text). any is_unsafe (split t)) (slash_last p h)
    ∙ ap (any is_unsafe) (split-append (drop_last p) [])
    ∙ any-append is_unsafe (split (drop_last p)) (split [])
    ∙ unfold split in ground arith

any-drop_last : (f : ℕ → Bool) (p : Text) → any f p ≡ false → any f (drop_last p) ≡ false
unfolding drop_last
any-drop_last f [] h = refl
any-drop_last f (c ∷ []) h = refl
any-drop_last f (c ∷ d ∷ s) h = ground (arith, any-drop_last f (d ∷ s))

any-trim : (f : ℕ → Bool) (p : Text) → any f p ≡ false → any f (trim p) ≡ false
any-trim f p h = ground (arith, any-drop_last f p h)

starts_with-trim :
    (p : Text) → starts_with (codes "/") p ≡ false → starts_with (codes "/") (trim p) ≡ false
unfolding starts_with drop_last
starts_with-trim [] h = ground arith
starts_with-trim (c ∷ []) h = ground arith
starts_with-trim (c ∷ d ∷ s) h = ground arith

drive_letter-trim : (p : Text) → has_drive_letter p ≡ false → has_drive_letter (trim p) ≡ false
unfolding drop_last
drive_letter-trim [] h = ground arith
drive_letter-trim (c ∷ []) h = ground arith
drive_letter-trim (c ∷ d ∷ []) h = ground arith
drive_letter-trim (c ∷ d ∷ e ∷ s) h = ground arith

-- Neither empty, nor `.`, nor `..`.
abbrev pub SafeSegment : Text → Type 0
SafeSegment s = (s ≢ []) × (s ≢ codes ".") × (s ≢ codes "..")

safe_segments : (segs : List Text) → any is_unsafe segs ≡ false → All SafeSegment segs
safe_segments [] h = tt
safe_segments (s ∷ segs) h = (
  (
    λ e. absurd (ground (arith, (text_eq_iff s []).1 e)),
    λ e. absurd (ground (arith, (text_eq_iff s (codes ".")).1 e)),
    λ e. absurd (ground (arith, (text_eq_iff s (codes "..")).1 e)),
  ),
  safe_segments segs (ground arith),
)

-- A relative path of safe segments without NUL or backslash.
abbrev pub IsSafePath : Text → Type 0
IsSafePath q = (has_unit 0 q ≡ false) × (has_unit b'\\' q ≡ false) × All SafeSegment (split q)

-- What the checks of `normalizeTarPath` leave.
pub record Passed (p : Text) : Type 0 where
  pub nul : has_unit 0 p ≡ false
  pub backslash : has_unit b'\\' p ≡ false
  pub absolute : starts_with (codes "/") p ≡ false
  pub drive : has_drive_letter p ≡ false
  pub segments : any is_unsafe (split (trim p)) ≡ false

pub normalize_tar_path-Passed : (p q : Text) → normalize_tar_path p ≡ ok q → Passed p × (trim p ≡ q)
unfolding normalize_tar_path
normalize_tar_path-Passed p q h =
    let (_, (a, h)) = >>=-eq-ok (raise_if (length p == 0) empty_path) _ h in
    let (_, (b, h)) = >>=-eq-ok (raise_if (has_unit 0 p) (nul_in_path p)) _ h in
    let (_, (c, h)) = >>=-eq-ok (raise_if (has_unit b'\\' p) (backslash_in_path p)) _ h in
    let (_, (d, h)) = >>=-eq-ok (raise_if (starts_with (codes "/") p) (absolute_path p)) _ h in
    let (_, (e, h)) = >>=-eq-ok (raise_if (has_drive_letter p) (drive_letter p)) _ h in
    let (_, (f, h)) = >>=-eq-ok (raise_if (any is_unsafe (split (trim p))) (unsafe_path p)) _ h in
    (
      record {
        nul = raise_if-eq-ok _ _ b;
        backslash = raise_if-eq-ok _ _ c;
        absolute = raise_if-eq-ok _ _ d;
        drive = raise_if-eq-ok _ _ e;
        segments = raise_if-eq-ok _ _ f;
      },
      ok-injective _ _ h,
    )

pub Passed-normalize_tar_path :
    (p : Text) → Passed p → 1 ≤ length p → normalize_tar_path p ≡ ok (trim p)
unfolding normalize_tar_path
Passed-normalize_tar_path p h n =
    let not_empty : (length p == 0) ≡ false = ground arith in
    rw (not_empty, h.nul, h.backslash, h.absolute, h.drive, h.segments) refl

pub trim_once : (q : Text) → any is_unsafe (split q) ≡ false → trim q ≡ q
trim_once q h = elim (Bool-cases (ends_with_slash q)) [
  | inl e ↦ absurd (ground (arith, slash_last-unsafe q e))
  | inr e ↦ rw e refl
]

pub not_empty : (q : Text) → any is_unsafe (split q) ≡ false → 1 ≤ length q
unfolding split text_eq
not_empty [] h = absurd (ground arith)
not_empty (c ∷ q) h = omega arith

-- A path that `normalizeTarPath` returns is relative and made of safe segments: none is empty, `.`
-- or `..`, and there is no NUL and no backslash in it; and to normalize it again changes nothing.
pub normalize_tar_path-IsSafePath :
    (p q : Text) → normalize_tar_path p ≡ ok q → IsSafePath q × (normalize_tar_path q ≡ ok q)
normalize_tar_path-IsSafePath p q h =
    let (passed, e) = normalize_tar_path-Passed p q h in
    let segments : any is_unsafe (split q) ≡ false =
      subst (λ (t : Text). any is_unsafe (split t) ≡ false) e passed.segments in
    let same = trim_once q segments in
    let again : Passed q = record {
      nul = subst (λ (t : Text). has_unit 0 t ≡ false) e (any-trim _ p passed.nul);
      backslash = subst (λ (t : Text). has_unit b'\\' t ≡ false) e (any-trim _ p passed.backslash);
      absolute =
          subst (λ (t : Text). starts_with (codes "/") t ≡ false) e
            (starts_with-trim p passed.absolute);
      drive = subst (λ (t : Text). has_drive_letter t ≡ false) e (drive_letter-trim p passed.drive);
      segments = subst (λ (t : Text). any is_unsafe (split t) ≡ false) (sym same) segments;
    } in
    (
      (again.nul, again.backslash, safe_segments (split q) segments),
      Passed-normalize_tar_path q again (not_empty q segments) ∙ ap ok same,
    )
