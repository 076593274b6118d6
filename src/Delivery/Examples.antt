-- ===== src/Delivery/Examples.antt =====
-- A delivery at a concrete input: an archive of a manifest, a grader and a task, in empty files.
use bab_takehome.Base.{
  ◌≡◌, refl, false, some, List, [], ◌∷◌, Text, codes, text_eq, to_lower, starts_with, lookup,
  insert, traverse, sort_by, insert_by, text_lt, err,
}
use bab_takehome.Tar.Paths.{
  normalize_tar_path, split, join, ends_with_slash, drop_last, prefixes, parents,
}
use bab_takehome.Tar.Entries.{Bytes, EntryType, file, dir, TarInput, TarEntry}
use bab_takehome.Tar.Write.{
  write_tar, write_slots, collect, add_parents, add_all_parents, build_header, entry_chunks,
}
use bab_takehome.Tar.Examples.{small, bytes_of}
use bab_takehome.Delivery.Inputs.{Hashes, DeliveryInputs, Wrapper, Manifest, DeliveryIo, failed}
use bab_takehome.Delivery.Checks.{VerifiedDelivery, check_purchase, verify_delivery}

abbrev empty_file : Text → TarInput
empty_file path = record { path = path; kind = file; bytes = some []; executable = false }

abbrev bundle : Bytes
unfolding write_tar write_slots collect add_parents add_all_parents build_header entry_chunks
    normalize_tar_path split join ends_with_slash drop_last prefixes parents lookup insert traverse
    sort_by insert_by text_lt text_eq starts_with
bundle = bytes_of (
    write_tar small (
      empty_file (codes "manifest.json")
      ∷ empty_file (codes "grader/g")
      ∷ empty_file (codes "tasks/t/task.json")
      ∷ []))

abbrev entry : Text → EntryType → TarEntry
entry path kind = record { path = path; kind = kind; mode = 420; bytes = [] }

abbrev entries : List TarEntry
entries =
    entry (codes "grader") dir
    ∷ entry (codes "grader/g") file
    ∷ entry (codes "manifest.json") file
    ∷ entry (codes "tasks") dir
    ∷ entry (codes "tasks/t") dir
    ∷ entry (codes "tasks/t/task.json") file
    ∷ []

abbrev hash : Text
hash = codes "0xAB"

abbrev manifest : Manifest
manifest = record {
  task_root = hash;
  audit_root = hash;
  image_digest = hash;
  task_count = 1;
  audit_task_count = 1;
  bundle_digest = hash;
  grader_digest = hash;
}

abbrev wrapper : Wrapper
wrapper = record {
  purchase_id = codes "4";
  chain_id = 5;
  market = hash;
  buyer = hash;
  buyer_enc_pub_key = hash;
  version_id = codes "2";
  bundle_hash = hash;
  ciphertext_hash = hash;
  relay = hash;
}

abbrev io : DeliveryIo
io = record {
  codec = small;
  sha256_hex = λ b. codes "0xab";
  sha256_text = λ s. codes "0xab";
  x25519_public_key = λ s. hash;
  parse_wrapper = λ s. some wrapper;
  unwrap_key = λ b s h. some (171 ∷ []);
  decrypt_file = λ key b. some bundle;
  parse_manifest = λ b. some manifest;
  utf8_text = λ b. b;
}

abbrev hashes : Hashes
hashes = record { ciphertext_hash = hash; wrapped_key_hash = hash; wrapper_hash = hash }

abbrev inputs : Text → DeliveryInputs
inputs buyer = record {
  chain_id = 5;
  market = hash;
  purchase_id = 4;
  buyer = buyer;
  buyer_enc_sk = [];
  purchase = record {
    version_id = 2;
    buyer = hash;
    state = 2;
    buyer_enc_pub_key = hash;
    hashes = hashes;
    relay = hash;
  };
  delivered_event = some hashes;
  version = record {
    bundle_hash = hash;
    ciphertext_hash = hash;
    manifest_hash = hash;
    image_digest = hash;
    task_root = hash;
    audit_root = hash;
    task_count = 1;
    audit_task_count = 1;
  };
  wrapper_json = [];
  wrapped_key = [];
  ciphertext = [];
}

abbrev delivery : VerifiedDelivery
delivery = record {
  bundle = bundle;
  entries = entries;
  manifest = manifest;
  task_ids = codes "t" ∷ [];
}

other_buyer : verify_delivery io (inputs (codes "0xcd")) ≡ err (failed (codes "purchase.buyer"))
unfolding verify_delivery check_purchase to_lower text_eq
other_buyer = refl
