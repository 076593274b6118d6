-- ===== src/Rationales/Examples.antt =====
-- Publication at concrete inputs, with a parser that knows one document.
use bab_takehome.Base.{
  ◌≡◌, refl, Bool, true, false, none, some, [], ◌∷◌, ◌++◌, Text, codes, text_eq, to_lower, show,
  show_fuel, lookup, insert, ok, err,
}
use bab_takehome.Rationales.{
  not_revealed, missing_fields, Doc, Seat, RationaleIo, Store, Accepted, rationale_type, read_doc,
  check_seat, check_rationale, find_seat, add_entry, put_rationale, store_rationale,
  list_rationales,
}
use bab_takehome.Rationales.Checks.{IsPublishable, check_rationale-IsPublishable}
use bab_takehome.Rationales.Index.{IsSound}
use bab_takehome.Rationales.History.{Request, answer, serve, IsStored, serve-IsStored}

abbrev document : Doc
document = record {
  kind = some rationale_type;
  chain_id = some 5;
  market = codes "0xM";
  dispute_id = codes "3";
  round = some 1;
  juror = codes "0xJ";
  verdict = some (codes "Uphold");
  commitment = codes "0xc";
}

abbrev seat : Bool → Seat
seat revealed = record {
  juror = codes "0xJ";
  vote = 1;
  revealed = revealed;
  commitment = codes "0xC";
}

abbrev world : Bool → RationaleIo
world revealed = record {
  chain_id = 5;
  market = codes "0xm";
  public_url = codes "u";
  time = codes "t";
  utf8 = λ s. s;
  parse = λ s. some (some document);
  get_address = λ s. some s;
  sha256_hex = λ b. codes "0x" ++ b;
  recover = λ h s. some (codes "0xj");
  get_dispute = λ id. ok (some (seat revealed ∷ []));
}

abbrev empty : Store
empty = record { blobs = []; index = [] }

abbrev accepted : Accepted
accepted = record { juror = codes "0xj"; round = 1; hash = codes "0xab"; json = codes "ab" }

abbrev after_ab : Store
after_ab = record {
  blobs = (codes "0xab", codes "ab") ∷ [];
  index =
      (
        codes "d3",
        record { juror = codes "0xj"; round = 1; sha256 = codes "0xab"; stored_at = codes "t" }
            ∷ [],
      )
      ∷ [];
}

check_passes : check_rationale (world true) 3 (some (codes "ab")) (some (codes "s")) ≡ ok accepted
unfolding check_rationale read_doc check_seat find_seat show show_fuel to_lower text_eq
check_passes = refl

rationale_tests :
    (check_rationale (world false) 3 (some (codes "ab")) (some (codes "s")) ≡ err not_revealed)
    × (check_rationale (world true) 3 none (some (codes "s")) ≡ err missing_fields)
    × (list_rationales (world false) after_ab 3 ≡ ok [])
unfolding check_rationale read_doc check_seat find_seat show show_fuel to_lower text_eq
    list_rationales lookup
rationale_tests = (refl, refl, refl)

stored :
    store_rationale (world true) empty 3 (some (codes "ab")) (some (codes "s"))
    ≡ ok (codes "0xab", codes "u/blobs/ab", after_ab)
unfolding store_rationale check_rationale read_doc check_seat find_seat put_rationale add_entry show
    show_fuel to_lower text_eq lookup insert
stored = refl

empty-IsSound : IsSound empty
unfolding lookup
empty-IsSound id = (tt, tt)

check_rationale-IsPublishable_example :
    (some (codes "ab") ≡ some accepted.json) × IsPublishable (world true) 3 accepted
check_rationale-IsPublishable_example =
    check_rationale-IsPublishable (world true) 3 (some (codes "ab")) (some (codes "s")) accepted
      check_passes

abbrev request : Text → Request
request json = record {
  io = world true;
  dispute_id = 3;
  doc_json = some json;
  signature = some (codes "s");
}

-- The store after a first request, and one with another text of the same seat.
abbrev after_cd : Store
unfolding store_rationale check_rationale read_doc check_seat find_seat put_rationale add_entry show
    show_fuel to_lower text_eq lookup insert serve
after_cd = serve after_ab (request (codes "cd") ∷ [])

answered :
    answer (serve empty (request (codes "ab") ∷ [])) (request (codes "cd"))
    ≡ ok (codes "0xcd", codes "u/blobs/cd", after_cd)
unfolding after_cd store_rationale check_rationale read_doc check_seat find_seat put_rationale
    add_entry show show_fuel to_lower text_eq lookup insert serve
answered = refl

serve-IsStored_example :
    IsSound after_cd
    × IsStored
        (request (codes "cd"))
        (serve empty (request (codes "ab") ∷ []))
        after_cd
        (codes "0xcd")
serve-IsStored_example =
    serve-IsStored (request (codes "ab") ∷ []) empty after_cd (request (codes "cd")) (codes "0xcd")
      (codes "u/blobs/cd") empty-IsSound answered
