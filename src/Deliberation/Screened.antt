-- ===== src/Deliberation/Screened.antt =====
-- What passes the screening.
use bab_takehome.Base.{
  ℕ, ◌≤◌, ◌≡◌, refl, sym, ap, subst, ◌⊎◌, inl, inr, Bool, true, false, List, [], ◌∷◌, arith, map,
  length, length-take, append-empty, take, any, ltb, ◌==◌, All, All-Some, Some, Some-append_left,
  Some-append_right, Bool-cases, Text, text_eq_iff,
}
use bab_takehome.Deliberation.Types.{ScreenedPublic}
use bab_takehome.Deliberation.Parse.{rationale_max_words, fact_max_words, word_count}
use bab_takehome.Deliberation.Screen.{
  Patterns, rationale_max_bytes, fact_max_bytes, max_facts, shingle_size, withheld_rationale,
  byte_length, norm_words, windows, shingle, shingles, member, ScreenOptions, reason_if,
  pattern_reasons, copies, screen_reasons, screen_text, rationale_options, fact_options,
  screen_facts, screen_decision,
}

any-All : {A : Type 0} (p : A → Bool) (xs : List A) → any p xs ≡ false → All (λ x. p x ≡ false) xs
any-All p [] h = tt
any-All p (x ∷ xs) h = (ground arith, any-All p xs (ground arith))

member-Some : (set : List Text) (t : Text) → Some (λ u. u ≡ t) set → member set t ≡ true
member-Some [] t h = absurd h
member-Some (u ∷ set) t (inl e) = ground (arith, text_eq_iff u t)
member-Some (u ∷ set) t (inr h) = ground (arith, member-Some set t h)

Some-map_eq :
    {A B : Type 0} (f : A → B) (x : A) (xs : List A)
    → Some (λ y. y ≡ x) xs
    → Some (λ z. z ≡ f x) (map f xs)
Some-map_eq f x [] h = absurd h
Some-map_eq f x (y ∷ xs) (inl e) = inl (ap f e)
Some-map_eq f x (y ∷ xs) (inr h) = inr (Some-map_eq f x xs h)

-- A run of words of one of the texts is in the set of shingles.
shingles-Some :
    (n : ℕ) (w : List Text) (t : Text) (ts : List Text)
    → Some (λ s. s ≡ t) ts
    → Some (λ v. v ≡ w) (windows n (norm_words t))
    → Some (λ u. u ≡ shingle w) (shingles ts n)
unfolding shingles
shingles-Some n w t [] h k = absurd h
shingles-Some n w t (s ∷ ts) (inl e) k =
    Some-append_left (λ u. u ≡ shingle w) _ _
      (Some-map_eq shingle w _
        (subst (λ (x : Text). Some (λ v. v ≡ w) (windows n (norm_words x))) (sym e) k))
shingles-Some n w t (s ∷ ts) (inr h) k =
    Some-append_right (λ u. u ≡ shingle w) (map shingle (windows n (norm_words s))) _
      (shingles-Some n w t ts h k)

-- No run of seven words of `s` is one of `t`.
abbrev pub NoCommonRun : Text → Text → Type 0
NoCommonRun s t =
    (w : List Text)
    → Some (λ v. v ≡ w) (windows shingle_size (norm_words s))
    → Some (λ v. v ≡ w) (windows shingle_size (norm_words t))
    → ⊥

copies-NoCommonRun :
    (corpus : List Text) (s t : Text)
    → copies (shingles corpus shingle_size) s ≡ false
    → Some (λ u. u ≡ t) corpus
    → NoCommonRun s t
copies-NoCommonRun corpus s t h m w a b =
    let out =
      All-Some (λ (v : List Text). member (shingles corpus shingle_size) (shingle v) ≡ false) w
        (windows shingle_size (norm_words s)) (any-All _ _ h) a in
    let inside =
      member-Some (shingles corpus shingle_size) (shingle w)
        (shingles-Some shingle_size w t corpus m b) in
    cc

-- A text within the limits that no pattern matches and that copies no text of the corpus.
abbrev pub IsScreened : ℕ → ℕ → Patterns → List Text → Text → Type 0
IsScreened words bytes ps corpus s =
    (word_count s ≤ words)
    × (byte_length s ≤ bytes)
    × All (λ p. (p.0) s ≡ false) ps
    × ((t : Text) → Some (λ u. u ≡ t) corpus → NoCommonRun s t)

length-empty : {A : Type 0} (xs : List A) → (length xs == 0) ≡ true → xs ≡ []
length-empty [] h = refl
length-empty (x ∷ xs) h = absurd (ground arith)

reason_if-empty : (b : Bool) (r : Text) → reason_if b r ≡ [] → b ≡ false
reason_if-empty true r h = absurd (ground arith)
reason_if-empty false r h = refl

pattern_reasons-All :
    (ps : Patterns) (s : Text) → pattern_reasons ps s ≡ [] → All (λ p. (p.0) s ≡ false) ps
unfolding pattern_reasons
pattern_reasons-All [] s h = tt
pattern_reasons-All ((test, why) ∷ ps) s h =
    let (a, b) = append-empty (reason_if (test s) why) (pattern_reasons ps s) h in
    (reason_if-empty (test s) why a, pattern_reasons-All ps s b)

screen_text-IsScreened :
    (ps : Patterns) (corpus : List Text) (s : Text) (words bytes : ℕ)
    → (screen_text ps s (record {
      max_words = words;
      max_bytes = bytes;
      private_shingles = shingles corpus shingle_size;
    })).passed
      ≡ true
    → IsScreened words bytes ps corpus s
unfolding screen_text
screen_text-IsScreened ps corpus s words bytes h =
    let opts : ScreenOptions = record {
      max_words = words;
      max_bytes = bytes;
      private_shingles = shingles corpus shingle_size;
    } in
    let none_at_all = length-empty (screen_reasons ps s opts) h in
    let (rest, d) = append-empty _ (reason_if (copies opts.private_shingles s) _) none_at_all in
    let (rest, c) = append-empty _ (pattern_reasons ps s) rest in
    let (a, b) = append-empty (reason_if (ltb words (word_count s)) _) _ rest in
    let few = reason_if-empty _ _ a in
    let small = reason_if-empty _ _ b in
    let own = reason_if-empty _ _ d in
    (
      ground arith,
      ground arith,
      pattern_reasons-All ps s c,
      λ t m. copies-NoCommonRun corpus s t own m,
    )

screen_facts-IsScreened :
    (ps : Patterns) (corpus fs : List Text)
    → All
        (IsScreened fact_max_words fact_max_bytes ps corpus)
        (screen_facts ps (shingles corpus shingle_size) fs).0
unfolding screen_facts
screen_facts-IsScreened ps corpus [] = tt
screen_facts-IsScreened ps corpus (f ∷ fs) =
    elim (Bool-cases (screen_text ps f (fact_options (shingles corpus shingle_size))).passed) [
      | inl e ↦ rw e (
        screen_text-IsScreened ps corpus f fact_max_words fact_max_bytes e,
        screen_facts-IsScreened ps corpus fs,
      )
      | inr e ↦ rw e (screen_facts-IsScreened ps corpus fs)
    ]

screen_facts-length :
    (ps : Patterns) (set fs : List Text) → length (screen_facts ps set fs).0 ≤ length fs
unfolding screen_facts
screen_facts-length ps set [] = omega arith
screen_facts-length ps set (f ∷ fs) =
    elim (Bool-cases (screen_text ps f (fact_options set)).passed) [
      | inl e ↦ rw e (omega (arith, screen_facts-length ps set fs))
      | inr e ↦ rw e (omega (arith, screen_facts-length ps set fs))
    ]

abbrev pub PassesScreening : Patterns → List Text → ScreenedPublic → Type 0
PassesScreening ps corpus d =
    ((d.rationale ≡ withheld_rationale)
      ⊎ IsScreened rationale_max_words rationale_max_bytes ps corpus d.rationale)
    × All (IsScreened fact_max_words fact_max_bytes ps corpus) d.cited_facts
    × (length d.cited_facts ≤ max_facts)

-- Whatever a juror wrote, what the screening publishes is a rationale that is the notice that it is
-- withheld, or has at most 80 words and 700 bytes, and at most five facts of at most 25 words and
-- 250 bytes; no screening pattern matches any of these texts, and none has a run of seven words
-- that a text of the private corpus has.
pub screen_decision-PassesScreening :
    (ps : Patterns) (rationale : Text) (cited corpus : List Text)
    → PassesScreening ps corpus (screen_decision ps rationale cited (shingles corpus shingle_size))
unfolding screen_decision
screen_decision-PassesScreening ps rationale cited corpus =
    let set = shingles corpus shingle_size in
    (
      elim (Bool-cases (screen_text ps rationale (rationale_options set)).passed) [
        | inl e ↦ inr (
            rw e (
              screen_text-IsScreened ps corpus rationale rationale_max_words rationale_max_bytes e))
        | inr e ↦ inl (rw e refl)
      ],
      screen_facts-IsScreened ps corpus (take max_facts cited),
      omega (arith, screen_facts-length ps set (take max_facts cited), length-take max_facts cited),
    )
