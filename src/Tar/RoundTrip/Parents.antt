-- ===== src/Tar/RoundTrip/Parents.antt =====
-- The parent directories of a path that `normalizeTarPath` returned.
use mathlib.Core.List.{append_assoc}
use bab_takehome.Base.{
  ℕ, zero, suc, ◌+◌, ◌≤◌, ◌<◌, ◌≡◌, refl, sym, ap, subst, ◌∙◌, inl, inr, Bool, true, false, List,
  [], ◌∷◌, ◌++◌, arith, length, length-append, take, drop, any, Some, ◌==◌, Text, codes,
  starts_with, ok,
}
use bab_takehome.Tar.Paths.{
  slash, split, join, ends_with_slash, drop_last, has_drive_letter, is_unsafe, trim, has_unit,
  normalize_tar_path, prefixes, parents, less_one,
}
use bab_takehome.Tar.Paths.Segments.{split-append, join-split, parents-Some, length-split_pos}
use bab_takehome.Tar.Paths.Safe.{
  Passed, any-append, normalize_tar_path-Passed, Passed-normalize_tar_path, trim_once, not_empty,
}

join-take-drop :
    (segs : List Text) (i : ℕ)
    → 1 ≤ i
    → i < length segs
    → join segs ≡ join (take i segs) ++ slash ∷ join (drop i segs)
unfolding join
join-take-drop segs zero a b = absurd (omega (arith, a))
join-take-drop [] (suc i) a b = absurd (omega (arith, b))
join-take-drop (s ∷ []) (suc i) a b = absurd (omega (arith, b))
join-take-drop (s ∷ t ∷ segs) (suc zero) a b = refl
join-take-drop (s ∷ t ∷ segs) (suc (suc i)) a b =
    ap (λ (x : Text). s ++ slash ∷ x)
      (join-take-drop (t ∷ segs) (suc i) (omega arith) (omega (arith, b)))
    ∙ sym (
        append_assoc s (slash ∷ join (take (suc i) (t ∷ segs)))
          (slash ∷ join (drop (suc i) (t ∷ segs))))

prefixes-split :
    (segs : List Text) (i n : ℕ) (d : Text)
    → 1 ≤ i
    → i + n ≤ length segs
    → Some (λ e. e ≡ d) (prefixes segs i n)
    → (q : Text) × (join segs ≡ d ++ slash ∷ q)
unfolding prefixes
prefixes-split segs i zero d a b s = absurd s
prefixes-split segs i (suc n) d a b (inl e) = (
  join (drop i segs),
  join-take-drop segs i a (omega (arith, b)) ∙ ap (λ (x : Text). x ++ slash ∷ join (drop i segs)) e,
)
prefixes-split segs i (suc n) d a b (inr s) =
    prefixes-split segs (suc i) n d (omega arith) (omega (arith, b)) s

less_one-le : (n : ℕ) → 1 ≤ n → 1 + less_one n ≤ n
less_one-le zero h = absurd (omega (arith, h))
less_one-le (suc n) h = omega arith

-- A parent directory is the part of the path before one of its slashes.
pub parents-split : (p d : Text) → Some (λ e. e ≡ d) (parents p) → (q : Text) × (p ≡ d ++ slash ∷ q)
unfolding parents
parents-split p d s =
    let (q, e) =
      prefixes-split (split p) 1 (less_one (length (split p))) d (omega arith)
        (less_one-le (length (split p)) (length-split_pos p)) s in
    (q, sym (join-split p) ∙ e)

-- The parents of a parent are parents.
pub parents_trans :
    (p d e : Text)
    → Some (λ x. x ≡ d) (parents p)
    → Some (λ x. x ≡ e) (parents d)
    → Some (λ x. x ≡ e) (parents p)
parents_trans p d e a b =
    let (q, h) = parents-split p d a in
    let (r, k) = parents-split d e b in
    subst (λ (t : Text). Some (λ x. x ≡ e) (parents t))
      (sym (h ∙ ap (λ (t : Text). t ++ slash ∷ q) k ∙ append_assoc e (slash ∷ r) (slash ∷ q)))
      (parents-Some e (r ++ slash ∷ q))

-- A path whose normal form is itself.
abbrev pub IsNormal : Text → Type 0
IsNormal p = normalize_tar_path p ≡ ok p

any_left : (f : ℕ → Bool) (s t : Text) → any f (s ++ t) ≡ false → any f s ≡ false
any_left f s t h = ground (arith, any-append f s t)

any_left_text : (f : Text → Bool) (s t : List Text) → any f (s ++ t) ≡ false → any f s ≡ false
any_left_text f s t h = ground (arith, any-append f s t)

starts_with-left :
    (s t : Text) → starts_with (codes "/") (s ++ t) ≡ false → starts_with (codes "/") s ≡ false
unfolding starts_with
starts_with-left [] t h = refl
starts_with-left (c ∷ s) t h = h

drive_letter-left : (s t : Text) → has_drive_letter (s ++ t) ≡ false → has_drive_letter s ≡ false
drive_letter-left [] t h = refl
drive_letter-left (c ∷ []) t h = refl
drive_letter-left (c ∷ d ∷ s) t h = h

ends_with_slash-append : (p : Text) → ends_with_slash (p ++ slash ∷ []) ≡ true
unfolding ends_with_slash
ends_with_slash-append [] = refl
ends_with_slash-append (c ∷ []) = refl
ends_with_slash-append (c ∷ d ∷ p) = ends_with_slash-append (d ∷ p)

drop_last-append : (p : Text) → drop_last (p ++ slash ∷ []) ≡ p
unfolding drop_last
drop_last-append [] = refl
drop_last-append (c ∷ []) = refl
drop_last-append (c ∷ d ∷ p) = ap (λ (t : Text). c ∷ t) (drop_last-append (d ∷ p))

trim-slash : (p : Text) → trim (p ++ slash ∷ []) ≡ p
trim-slash p = let e = ends_with_slash-append p in rw e (drop_last-append p)

starts_with-slash :
    (p : Text)
    → 1 ≤ length p
    → starts_with (codes "/") p ≡ false
    → starts_with (codes "/") (p ++ slash ∷ []) ≡ false
unfolding starts_with
starts_with-slash [] n h = absurd (omega (arith, n))
starts_with-slash (c ∷ p) n h = h

drive_letter-slash :
    (p : Text)
    → 1 ≤ length p
    → has_drive_letter p ≡ false
    → has_drive_letter (p ++ slash ∷ []) ≡ false
drive_letter-slash [] n h = absurd (omega (arith, n))
drive_letter-slash (c ∷ []) n h = ground arith
drive_letter-slash (c ∷ d ∷ p) n h = h

unit-slash :
    (c : ℕ) (p : Text)
    → (slash == c) ≡ false
    → has_unit c p ≡ false
    → has_unit c (p ++ slash ∷ []) ≡ false
unit-slash c p n h = ground (arith, any-append (λ d. d == c) p (slash ∷ []))

safe_segments_of : (p : Text) → IsNormal p → any is_unsafe (split p) ≡ false
safe_segments_of p h =
    let (passed, e) = normalize_tar_path-Passed p p h in
    subst (λ (t : Text). any is_unsafe (split t) ≡ false) e passed.segments

-- The parent directories of a normal path are normal.
pub IsNormal-parent : (p d : Text) → IsNormal p → Some (λ x. x ≡ d) (parents p) → IsNormal d
IsNormal-parent p d h s =
    let (q, e) = parents-split p d s in
    let (passed, _) = normalize_tar_path-Passed p p h in
    let whole : any is_unsafe (split d ++ split q) ≡ false =
      ap (any is_unsafe) (sym (split-append d q))
      ∙ ap (λ (t : Text). any is_unsafe (split t)) (sym e)
      ∙ safe_segments_of p h in
    let segments = any_left_text is_unsafe (split d) (split q) whole in
    let same = trim_once d segments in
    let here : Passed d = record {
      nul = any_left _ d (slash ∷ q) (subst (λ (t : Text). has_unit 0 t ≡ false) e passed.nul);
      backslash =
          any_left _ d (slash ∷ q)
            (subst (λ (t : Text). has_unit b'\\' t ≡ false) e passed.backslash);
      absolute =
          starts_with-left d (slash ∷ q)
            (subst (λ (t : Text). starts_with (codes "/") t ≡ false) e passed.absolute);
      drive =
          drive_letter-left d (slash ∷ q)
            (subst (λ (t : Text). has_drive_letter t ≡ false) e passed.drive);
      segments = subst (λ (t : Text). any is_unsafe (split t) ≡ false) (sym same) segments;
    } in
    Passed-normalize_tar_path d here (not_empty d segments) ∙ ap ok same

-- The name of a directory in an archive, with a slash behind it, has the path as its normal form.
pub IsNormal-slash : (p : Text) → IsNormal p → normalize_tar_path (p ++ slash ∷ []) ≡ ok p
IsNormal-slash p h =
    let (passed, _) = normalize_tar_path-Passed p p h in
    let segments = safe_segments_of p h in
    let some_unit = not_empty p segments in
    let here : Passed (p ++ slash ∷ []) = record {
      nul = unit-slash 0 p refl passed.nul;
      backslash = unit-slash b'\\' p refl passed.backslash;
      absolute = starts_with-slash p some_unit passed.absolute;
      drive = drive_letter-slash p some_unit passed.drive;
      segments =
          subst (λ (t : Text). any is_unsafe (split t) ≡ false) (sym (trim-slash p)) segments;
    } in
    Passed-normalize_tar_path (p ++ slash ∷ []) here (omega (arith, length-append p (slash ∷ [])))
    ∙ ap ok (trim-slash p)
