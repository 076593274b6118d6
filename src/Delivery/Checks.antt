-- ===== src/Delivery/Checks.antt =====
-- agents/src/buyer/verify.ts: `verifyDelivery`.
use bab_takehome.Base.{
  ℕ, ◌/◌, ◌%◌, Bool, true, false, ◌&&◌, ◌||◌, not, Option, none, some, List, [], ◌∷◌, ◌++◌, map,
  length, drop, any, keep, if◌then◌else◌, ◌==◌, Text, codes, text_eq, starts_with, show, sort_by,
  Result, ok, err, ◌>>=◌, ◌>>◌,
}
use bab_takehome.Deliberation.Screen.{distinct}
use bab_takehome.Tar.Entries.{Bytes, EntryType, file, dir, TarInput, TarEntry}
use bab_takehome.Tar.Paths.{TarError, split}
use bab_takehome.Tar.Write.{write_tar}
use bab_takehome.Tar.Read.{read_tar}
use bab_takehome.Delivery.Private.{is_forbidden, leak_in}
use bab_takehome.Delivery.Inputs.{
  Hashes, Version, DeliveryInputs, Wrapper, Manifest, DeliveryIo, DeliveryError, same_hex, must,
  try_get, failed, tar_error,
}

abbrev pub is_delivered_state : ℕ → Bool
is_delivered_state n = n == 2 || n == 3 || n == 5

abbrev pub same_hashes : Hashes → Hashes → Bool
same_hashes a b =
    same_hex a.ciphertext_hash b.ciphertext_hash
    && same_hex a.wrapped_key_hash b.wrapped_key_hash
    && same_hex a.wrapper_hash b.wrapper_hash

abbrev pub event_agrees : Option Hashes → Hashes → Bool
event_agrees none h = true
event_agrees (some e) h = same_hashes e h

unfoldable pub check_purchase : DeliveryIo → DeliveryInputs → Result DeliveryError (Unit {0})
check_purchase io i = do
  must (codes "purchase.state") (is_delivered_state i.purchase.state)
  must (codes "purchase.buyer") (same_hex i.purchase.buyer i.buyer)
  must (codes "buyerEncPubKey")
      (same_hex i.purchase.buyer_enc_pub_key (io.x25519_public_key i.buyer_enc_sk))
  must (codes "delivered.event") (event_agrees i.delivered_event i.purchase.hashes)
  must (codes "ciphertextHash.version")
      (same_hex i.purchase.hashes.ciphertext_hash i.version.ciphertext_hash)

abbrev pub binds : DeliveryInputs → Wrapper → Bool
binds i w =
    text_eq w.purchase_id (show i.purchase_id)
    && w.chain_id == i.chain_id
    && same_hex w.market i.market
    && same_hex w.buyer i.buyer
    && same_hex w.buyer_enc_pub_key i.purchase.buyer_enc_pub_key
    && text_eq w.version_id (show i.purchase.version_id)
    && same_hex w.bundle_hash i.version.bundle_hash
    && same_hex w.ciphertext_hash i.version.ciphertext_hash
    && same_hex w.relay i.purchase.relay

unfoldable pub check_wrapper : DeliveryIo → DeliveryInputs → Result DeliveryError Wrapper
check_wrapper io i = do
  must (codes "wrapperHash")
      (same_hex (io.sha256_text i.wrapper_json) i.purchase.hashes.wrapper_hash)
  w ← try_get (codes "wrapper.schema") (io.parse_wrapper i.wrapper_json)
  must (codes "wrapper.binding") (binds i w)
  ok w

-- The key of the bundle, and the bundle.
unfoldable pub open_bundle : DeliveryIo → DeliveryInputs → Result DeliveryError (Bytes × Bytes)
open_bundle io i = do
  must (codes "wrappedKeyHash")
      (same_hex (io.sha256_hex i.wrapped_key) i.purchase.hashes.wrapped_key_hash)
  must (codes "ciphertextHash") (same_hex (io.sha256_hex i.ciphertext) i.version.ciphertext_hash)
  key ←
      try_get (codes "unwrapKey")
        (io.unwrap_key i.wrapped_key i.buyer_enc_sk i.purchase.hashes.wrapper_hash)
  bundle ← try_get (codes "decrypt") (io.decrypt_file key i.ciphertext)
  must (codes "bundleHash") (same_hex (io.sha256_hex bundle) i.version.bundle_hash)
  ok (key, bundle)

-- `(e.mode & 0o111) !== 0 && e.type === 'file'`
abbrev pub is_executable : EntryType → ℕ → Bool
is_executable dir mode = false
is_executable file mode = mode % 2 == 1 || mode / 8 % 2 == 1 || mode / 64 % 2 == 1

abbrev pub input_of : ℕ → TarEntry → TarInput
input_of skip e = record {
  path = drop skip e.path;
  kind = e.kind;
  bytes = some e.bytes;
  executable = is_executable e.kind e.mode;
}

abbrev pub written : Result TarError Bytes → Result DeliveryError Bytes
written (ok b) = ok b
written (err e) = err (tar_error e)

-- The digest of the canonical archive of entries, without the first `skip` units of their paths.
unfoldable pub digest_of : DeliveryIo → ℕ → List TarEntry → Result DeliveryError Text
digest_of io skip es =
    written (write_tar io.codec (map (input_of skip) es)) >>= λ b. ok (io.sha256_hex b)

abbrev pub read_entries : Result TarError (List TarEntry) → Result DeliveryError (List TarEntry)
read_entries (ok es) = ok es
read_entries (err e) = err (failed (codes "tar"))

abbrev pub manifest_path : Text
manifest_path = codes "manifest.json"

abbrev pub is_file : EntryType → Bool
is_file file = true
is_file dir = false

unfoldable pub find_manifest : List TarEntry → Option TarEntry
find_manifest [] = none
find_manifest (e ∷ es) =
    if text_eq e.path manifest_path && is_file e.kind then some e else find_manifest es

abbrev pub commits : Version → Manifest → Bool
commits v m =
    same_hex m.task_root v.task_root
    && same_hex m.audit_root v.audit_root
    && same_hex m.image_digest v.image_digest
    && m.task_count == v.task_count
    && m.audit_task_count == v.audit_task_count

unfoldable pub check_archive :
    DeliveryIo → DeliveryInputs → Bytes → Result DeliveryError (List TarEntry × Manifest)
check_archive io i bundle = do
  es ← read_entries (read_tar io.codec bundle)
  digest ← digest_of io 0 es
  must (codes "tar.canonical") (same_hex digest (io.sha256_hex bundle))
  entry ← try_get (codes "manifest.present") (find_manifest es)
  must (codes "manifestHash") (same_hex (io.sha256_hex entry.bytes) i.version.manifest_hash)
  m ← try_get (codes "manifest.schema") (io.parse_manifest entry.bytes)
  must (codes "manifest.commitments") (commits i.version m)
  ok (es, m)

abbrev pub is_payload : TarEntry → Bool
is_payload e = not (text_eq e.path manifest_path)

abbrev pub grader_prefix : Text
grader_prefix = codes "grader/"

abbrev pub is_grader : TarEntry → Bool
is_grader e = starts_with grader_prefix e.path

-- The second segment of a path below `tasks/`.
abbrev pub task_segment : List Text → List Text
task_segment [] = []
task_segment (t ∷ []) = []
task_segment (t ∷ id ∷ rest) =
    if text_eq t (codes "tasks") && not (length id == 0) then id ∷ [] else []

unfoldable pub task_segments : List TarEntry → List Text
task_segments [] = []
task_segments (e ∷ es) = task_segment (split e.path) ++ task_segments es

abbrev pub task_ids_of : List TarEntry → List Text
task_ids_of es = sort_by (λ t. t) (distinct (task_segments es))

abbrev pub task_file : Text → Text
task_file id = codes "tasks/" ++ id ++ codes "/task.json"

unfoldable pub check_tasks : List TarEntry → List Text → Result DeliveryError (Unit {0})
check_tasks es [] = ok tt
check_tasks es (id ∷ ids) = do
  must (codes "tasks." ++ id ++ codes ".task.json") (any (λ e. text_eq e.path (task_file id)) es)
  check_tasks es ids

unfoldable pub check_payload :
    DeliveryIo → DeliveryInputs → List TarEntry → Manifest → Result DeliveryError (List Text)
check_payload io i es m = do
  payload ← digest_of io 0 (keep is_payload es)
  must (codes "manifest.bundleDigest") (same_hex payload m.bundle_digest)
  grader ← digest_of io (length grader_prefix) (keep is_grader es)
  must (codes "grader.digest")
      (not (length (keep is_grader es) == 0) && same_hex grader m.grader_digest)
  must (codes "tasks.count") (length (task_ids_of es) == i.version.task_count)
  check_tasks es (task_ids_of es)
  ok (task_ids_of es)

abbrev pub is_leak : DeliveryIo → Bytes → TarEntry → Bool
is_leak io key e = is_file e.kind && leak_in key (length e.bytes) (io.utf8_text e.bytes)

unfoldable pub check_private : DeliveryIo → Bytes → List TarEntry → Result DeliveryError (Unit {0})
check_private io key [] = ok tt
check_private io key (e ∷ es) = do
  must (codes "no-private-material") (not (is_forbidden e.path))
  must (codes "no-private-material") (not (is_leak io key e))
  check_private io key es

pub record VerifiedDelivery : Type 0 where
  pub bundle : Bytes
  pub entries : List TarEntry
  pub manifest : Manifest
  pub task_ids : List Text

unfoldable pub verify_delivery : DeliveryIo → DeliveryInputs → Result DeliveryError VerifiedDelivery
verify_delivery io i = do
  check_purchase io i
  w ← check_wrapper io i
  (key, bundle) ← open_bundle io i
  (es, m) ← check_archive io i bundle
  ids ← check_payload io i es m
  check_private io key es
  ok (record { bundle = bundle; entries = es; manifest = m; task_ids = ids })
