-- ===== src/Dedup/Tests.antt =====
-- The hot index over a filter that holds the hashes themselves, and the theorems at it.
use little_big_files.Common.{◌≡◌, ◌++◌, refl, Bool, true, false, some, List, [], ◌∷◌, Bytes, arith}
use little_big_files.Common.Result.{ok}
use little_big_files.Common.Dict.{bytes_beq, eq→bytes_beq}
use little_big_files.Dedup.{
  Entry, encode_entry, decode_entry, BloomLibrary, IsBloom, ContentBlob, lookup_entry,
  might_contain, rebuild,
}
use little_big_files.Dedup.Rebuild.{
  decode_entry-encode_entry, latest, open_index, lookup_entry-rebuild, might_contain-rebuild,
}
use little_big_files.Common.{◌||◌}

abbrev holds : List Bytes → Bytes → Bool
holds [] h = false
holds (k ∷ ks) h = bytes_beq k h || holds ks h

abbrev exact : BloomLibrary
exact = record {
  Rate = Bool;
  is_positive = λ rate. rate;
  one_in_thousand = true;
  Filter = List Bytes;
  new_with_estimates = λ n rate. [];
  test = holds;
  add = λ f h. h ∷ f;
}

exact-IsBloom : IsBloom exact
exact-IsBloom = record {
  test_add = λ f h. ground (arith, eq→bytes_beq h h refl);
  test_kept = λ f h k held. ground (arith, held);
}

abbrev blob : ContentBlob
blob = record {
  content_hash = 1 ∷ 2 ∷ [];
  size = 4;
  stored_size = 16;
  segment_id = 0;
  offset = 48;
  ref_count = 2;
}

abbrev entry : Entry
entry = record { segment_id = 0; offset = 48; size = 4 }

decode_entry-encode_entry_example : decode_entry (encode_entry entry ++ (9 ∷ [])) ≡ ok entry
decode_entry-encode_entry_example =
    decode_entry-encode_entry entry (9 ∷ []) (omega arith) (omega arith) (omega arith)

lookup_entry-rebuild_example :
    lookup_entry exact
      (some (rebuild exact (blob ∷ []) 10 true (open_index exact [] 5 [])))
      (1 ∷ 2 ∷ [])
    ≡ latest exact (1 ∷ 2 ∷ []) (blob ∷ [])
lookup_entry-rebuild_example = lookup_entry-rebuild exact (blob ∷ []) 10 true [] 5 [] (1 ∷ 2 ∷ [])

might_contain-rebuild_example :
    might_contain exact
      (some (rebuild exact (blob ∷ []) 10 true (open_index exact [] 5 [])))
      (1 ∷ 2 ∷ [])
    ≡ true
might_contain-rebuild_example =
    might_contain-rebuild exact exact-IsBloom (blob ∷ []) 10 true [] 5 [] (1 ∷ 2 ∷ []) refl
