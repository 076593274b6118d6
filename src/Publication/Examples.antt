-- ===== src/Publication/Examples.antt =====
-- Publication at concrete inputs, with an enclave that confirms what it gets.
use bab_takehome.Base.{
  ◌≡◌, refl, true, false, none, some, [], ◌∷◌, ◌++◌, arith, All, Text, codes, Number, fraction,
  null, str, arr, obj, nil, cons, Fields, end, field, quote, quote_body, quote_unit, join, sort_by,
  insert_by, text_lt, to_lower, text_eq, trim, trim_start, trim_end, starts_with,
}
use mathlib.Core.List.Permᴰ
use bab_takehome.Deliberation.Extract.{
  extract_json_object, reply_body, unfence, strip_thinks, after_close,
}
use bab_takehome.Publication.Canonical.{canonical}
use bab_takehome.Publication.Document.{RationaleDoc, rationale_type, doc_fields}
use bab_takehome.Publication.Upload.{
  UploadIo, Response, Publish, strip_slashes, post_rationale, upload, try_upload, publish_rationale,
}
use bab_takehome.Publication.Order.{canonical_comm}
use bab_takehome.Publication.Passes.{IsPlain}
use bab_takehome.Publication.Objects.{extract_json_object-canonical}
use bab_takehome.Publication.Confirmed.{IsUploaded, publish_rationale-IsUploaded}

abbrev show_number : Number → Text
show_number x = codes "1"

show_number-IsPlain : (x : Number) → All IsPlain (show_number x)
show_number-IsPlain x = ground arith

abbrev ab : Fields
ab = field (codes "a") (str (codes "}\"")) (field (codes "b") (arr (cons null nil)) end)

abbrev ba : Fields
ba = field (codes "b") (arr (cons null nil)) (field (codes "a") (str (codes "}\"")) end)

canonical_tests : canonical show_number (obj ba) ≡ codes "{\"a\":\"}\\\"\",\"b\":[null]}"
unfolding canonical quote quote_body quote_unit join sort_by insert_by text_lt
canonical_tests = refl

canonical_comm_example : canonical show_number (obj ab) ≡ canonical show_number (obj ba)
canonical_comm_example =
    canonical_comm show_number ab ba (Permᴰ.swap refl refl) ((ground arith, tt), (tt, tt))

-- A reply with a thought before its answer.
abbrev reply : Text
unfolding canonical quote quote_body quote_unit join sort_by insert_by text_lt
reply = codes "<think>{?}</think>Sure: " ++ (canonical show_number (obj ab) ++ codes " {done} ")

reply_tests :
    reply_body reply ≡ codes "Sure: " ++ (canonical show_number (obj ab) ++ codes " {done}")
unfolding reply reply_body unfence strip_thinks after_close trim trim_start trim_end starts_with
    to_lower canonical quote quote_body quote_unit join sort_by insert_by text_lt
reply_tests = refl

extract_json_object-canonical_example :
    extract_json_object reply ≡ some (canonical show_number (obj ab))
extract_json_object-canonical_example =
    extract_json_object-canonical show_number show_number-IsPlain reply (codes "Sure: ")
      (codes " {done}") ab reply_tests (ground arith)

abbrev answer : Response
answer = record { status = 200; sha256 = some (codes "0XAB"); url = none }

abbrev enclave : UploadIo
enclave = record {
  show_number = show_number;
  sha256_hex = λ s. codes "0xab";
  put = λ url body. some answer;
  post = λ url json signature. some answer;
}

abbrev document : RationaleDoc
document = record {
  kind = rationale_type;
  chain_id = 5;
  market = codes "0xm";
  dispute_id = codes "3";
  round = 1;
  juror = codes "0xj";
  verdict = codes "Uphold";
  confidence = fraction false 90 100;
  rationale = codes "r";
  cited_facts = codes "f" ∷ [];
  screening = record { passed = true; reasons = []; dropped_facts = 0 };
  model = record {
    provider = codes "p";
    base_url = codes "b";
    requested = codes "q";
    resolved = codes "m";
    served = codes "m";
  };
  prompt_version = codes "juror-v1";
  prompt_hash = codes "0x0";
  packet_sha256 = codes "0x1";
  commitment = codes "0xc";
  reveal_tx = codes "0xt";
  created_at = codes "now";
}

abbrev publication : Publish
publication = record {
  data_dir = codes "data";
  tee_url = some (codes "t/");
  doc = document;
  sign = some (λ hash. some (codes "s"));
}

publishes : (publish_rationale enclave publication).0.blob_url ≡ some (codes "t/blobs/0xab")
unfolding publish_rationale try_upload upload post_rationale strip_slashes to_lower text_eq
publishes = refl

publish_rationale-IsUploaded_example :
    ((publish_rationale enclave publication).1
      ≡ canonical enclave.show_number (obj (doc_fields document)))
    × ((publish_rationale enclave publication).0.sha256
        ≡ enclave.sha256_hex (publish_rationale enclave publication).1)
    × ((tee_url : Text) × (publication.tee_url ≡ some tee_url)
        × IsUploaded enclave publication tee_url
            (publish_rationale enclave publication).1
            (codes "t/blobs/0xab"))
publish_rationale-IsUploaded_example =
    publish_rationale-IsUploaded enclave publication (codes "t/blobs/0xab") publishes
