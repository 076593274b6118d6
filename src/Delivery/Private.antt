-- ===== src/Delivery/Private.antt =====
-- agents/src/buyer/verify.ts: what must stay with the seller and the enclave.
use bab_takehome.Base.{
  ℕ, ◌/◌, ◌%◌, ◌≡◌, refl, Bool, true, false, ◌&&◌, ◌||◌, none, some, List, [], ◌∷◌, length, take,
  drop, any, every, get_or, is_some, if◌then◌else◌, ltb, ◌==◌, Text, codes, text_eq, to_lower,
  starts_with, includes, hex_digit, trim_start,
}
use bab_takehome.Commitments.Tree.{is_hex_digit}
use bab_takehome.Deliberation.Extract.{ends_with}
use bab_takehome.Deliberation.Prompt.{Matcher, literal, any_case, spaces, either, in_order}
use bab_takehome.Tar.Entries.{Bytes}
use bab_takehome.Tar.Paths.{split}

-- The paths of `FORBIDDEN_PATH_RES`, on the segments of a path in lower case.
abbrev audit_names : List Text
audit_names =
    codes "audit"
    ∷ codes "audittask"
    ∷ codes "audittasks"
    ∷ codes "audit-task"
    ∷ codes "audit-tasks"
    ∷ codes "audit_task"
    ∷ codes "audit_tasks"
    ∷ []

abbrev private_names : List Text
private_names =
    codes "seeded_dispute.md"
    ∷ codes "salt.json"
    ∷ codes "salts.json"
    ∷ codes "key.json"
    ∷ codes "keys.json"
    ∷ []

abbrev is_one_of : List Text → Text → Bool
is_one_of names s = any (λ n. text_eq n s) names

unfoldable pub last_is : List Text → List Text → Bool
last_is names [] = false
last_is names (s ∷ []) = is_one_of names s
last_is names (s ∷ t ∷ ss) = last_is names (t ∷ ss)

unfoldable pub is_forbidden : Text → Bool
unfolding last_is starts_with
is_forbidden path =
    any (is_one_of audit_names) (split (to_lower path))
    || last_is private_names (split (to_lower path))
    || ends_with (codes ".pem") (to_lower path)
    || ends_with (codes ".key") (to_lower path)

-- `re.test(text)`: a match at some position.
unfoldable pub found : Matcher → Text → Bool
found m [] = is_some (m [])
found m (c ∷ s) = is_some (m (c ∷ s)) || found m s

abbrev optional : Matcher → Matcher
optional m s = some (get_or (m s) s)

-- `SALT_CONTENT_RE`, `/0x[0-9a-f]{64}/i` and `KEY_CONTENT_RE`
abbrev pub salt_content : Matcher
salt_content = in_order (
    any_case (codes "\"salt")
    ∷ optional (any_case (codes "s"))
    ∷ literal (codes "\"")
    ∷ spaces
    ∷ literal (codes ":")
    ∷ spaces
    ∷ either (literal (codes "{")) (literal (codes "\""))
    ∷ [])

abbrev pub hex_content : Matcher
hex_content s =
    if starts_with (codes "0x") (to_lower s)
      && length (take 64 (drop 2 s)) == 64
      && every is_hex_digit (take 64 (drop 2 s))
    then some (drop 66 s)
    else none

abbrev pub key_content : Matcher
key_content = in_order (
    literal (codes "\"")
    ∷ either (either (literal (codes "bundleKey")) (literal (codes "auditKey")))
        (either (literal (codes "K_bundle")) (literal (codes "K_audit")))
    ∷ literal (codes "\"")
    ∷ spaces
    ∷ literal (codes ":")
    ∷ [])

-- `Buffer.from(key).toString('hex')`
unfoldable pub to_hex : Bytes → Text
to_hex [] = []
to_hex (b ∷ bs) = hex_digit (b / 16 % 16) ∷ hex_digit (b % 16) ∷ to_hex bs

-- The content tests on the text of a file, for files below two million bytes.
unfoldable pub leak_in : Bytes → ℕ → Text → Bool
leak_in key size text =
    ltb size 2000000
    && (found salt_content text && found hex_content text
        || found key_content text
        || includes (to_hex key) text)

private_tests :
    (is_forbidden (codes "x/Audit-Tasks/y") ≡ true)
    × (is_forbidden (codes "a/salts.json") ≡ true)
    × (is_forbidden (codes "a/audits/b.txt") ≡ false)
    × (leak_in (171 ∷ 205 ∷ []) 9 (codes "..abcd..") ≡ true)
    × (leak_in (171 ∷ 205 ∷ []) 9 (codes "\"K_audit\" :") ≡ true)
    × (leak_in (171 ∷ 205 ∷ []) 9 (codes "\"salts\": {}") ≡ false)
unfolding is_forbidden leak_in found in_order to_hex includes starts_with to_lower split trim_start
    last_is text_eq
private_tests = (refl, refl, refl, refl, refl, refl)
