-- ===== src/Delivery/Verified.antt =====
-- What a delivery is that passes the checks.
use bab_takehome.Base.{
  ℕ, ◌≡◌, true, false, some, List, length, map, keep, any, All, Some, Text, text_eq, to_lower, ok,
  DistinctBy,
}
use bab_takehome.Tar.Entries.{Bytes, TarEntry}
use bab_takehome.Tar.Paths.Safe.{IsSafePath}
use bab_takehome.Tar.Write.{write_tar}
use bab_takehome.Tar.Read.{read_tar}
use bab_takehome.Tar.Read.Safe.{Clear}
use bab_takehome.Delivery.Private.{is_forbidden}
use bab_takehome.Delivery.Opened.{IsPurchased, IsBound, IsOpened}
use bab_takehome.Delivery.Inputs.{DeliveryInputs, Manifest, DeliveryIo}
use bab_takehome.Delivery.Checks.{
  input_of, manifest_path, commits, is_payload, grader_prefix, is_grader, task_ids_of, task_file,
  is_leak, VerifiedDelivery,
}

-- The canonical archive of the entries has a digest.
abbrev pub HasDigest : DeliveryIo → ℕ → List TarEntry → Text → Type 0
HasDigest io skip es digest =
    (b : Bytes) × (write_tar io.codec (map (input_of skip) es) ≡ ok b)
    × (to_lower (io.sha256_hex b) ≡ to_lower digest)

-- The entries are those of the bundle, which is their canonical archive; their manifest has the hash
-- on the chain and the commitments of the version.
abbrev pub IsArchive : DeliveryIo → DeliveryInputs → Bytes → List TarEntry → Manifest → Type 0
IsArchive io i bundle es m =
    (e : TarEntry) × (read_tar io.codec bundle ≡ ok es)
    × HasDigest io 0 es (io.sha256_hex bundle)
    × (Some (λ x. x ≡ e) es)
    × (e.path ≡ manifest_path)
    × (to_lower (io.sha256_hex e.bytes) ≡ to_lower i.version.manifest_hash)
    × (io.parse_manifest e.bytes ≡ some m)
    × (commits i.version m ≡ true)

-- The digests of the payload and of the grader are the manifest's, and the tasks are as many as the
-- chain says, each with its file.
abbrev pub IsPayload : DeliveryIo → DeliveryInputs → List TarEntry → Manifest → List Text → Type 0
IsPayload io i es m ids =
    HasDigest io 0 (keep is_payload es) m.bundle_digest
    × HasDigest io (length grader_prefix) (keep is_grader es) m.grader_digest
    × (ids ≡ task_ids_of es)
    × (length ids ≡ i.version.task_count)
    × All (λ id. any (λ e. text_eq e.path (task_file id)) es ≡ true) ids

abbrev pub IsVerified : DeliveryIo → DeliveryInputs → VerifiedDelivery → Type 0
IsVerified io i v =
    IsPurchased io i
    × IsBound io i
    × ((key : Bytes) × IsOpened io i key v.bundle
        × All (λ e. (is_forbidden e.path ≡ false) × (is_leak io key e ≡ false)) v.entries)
    × IsArchive io i v.bundle v.entries v.manifest
    × IsPayload io i v.entries v.manifest v.task_ids
    × (All (λ e. IsSafePath e.path) v.entries)
    × DistinctBy TarEntry.path v.entries
    × All (Clear v.entries) v.entries
