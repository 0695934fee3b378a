-- ===== src/Tests/Store.antt =====
-- Instances of the theorems about store/.
use aliceml_seam.Base.{
  ℕ, zero, suc, inr, ◌-◌, ◌+◌, ◌^◌, ◌%◌, ◌≤◌, ◌≡◌, arith, [], ◌∷◌, none, some, false, ◌==◌,
  if◌then◌else◌,
}
use aliceml_seam.Store.Block.{Word, translate_size}
use aliceml_seam.Store.MapKey.{word_key}
use aliceml_seam.Store.BaseMap
use aliceml_seam.Store.BaseMap.{BaseMap, Entries}
use aliceml_seam.Store.BaseMap.Chain.{count, to_nat}
use aliceml_seam.Store.BaseMap.Resize.{IsPlaced, IsValid}
use aliceml_seam.Store.BaseMap.Methods.{get-put, get-remove, put-IsValid}
use aliceml_seam.Store.Header.{encode_header, encode_size}
use aliceml_seam.Store.Header.Fields.{fields, fields-encode_header, fields-encode_size}
use aliceml_seam.Store.Pointer.Tags.{IsValidInt}

-- Two chains; the keys 4 and 6 share the first one. The next `Put` resizes the table.
abbrev chains : ℕ → Entries Word Word
chains zero = (4, 40) ∷ (6, 60) ∷ []
chains (suc zero) = (5, 50) ∷ []
chains _ = []

abbrev crowded : BaseMap Word Word
crowded = record { counter = 3; percent = 1; size = 2; table = chains }

crowded-IsPlaced : (q i : ℕ) → count q (chains i) ≤ to_nat (q % 2 == i)
unfolding count
crowded-IsPlaced q zero = ground arith
crowded-IsPlaced q (suc zero) = ground arith
crowded-IsPlaced q (suc (suc i)) = ground arith

crowded-IsValid : IsValid crowded
unfolding IsValid IsPlaced
crowded-IsValid = (omega arith, crowded-IsPlaced)

get-put_example :
    BaseMap.get (BaseMap.put crowded 6 61) 4 ≡ (if 4 == 6 then some 61 else BaseMap.get crowded 4)
get-put_example = get-put crowded 6 4 61 crowded-IsValid

get-remove_example :
    BaseMap.get (BaseMap.remove crowded 6) 6 ≡ (if 6 == 6 then none else BaseMap.get crowded 6)
get-remove_example = get-remove crowded 6 6 crowded-IsValid

put-IsValid_example : IsValid (BaseMap.put crowded 8 80)
put-IsValid_example = put-IsValid crowded 8 80 crowded-IsValid

-- A big block of a thousand times the small limit's words, mutable, in generation 1.
fields-encode_header_example : fields (encode_header 42 (translate_size 2000001) 1 1) ≡ record {
  label = 42;
  size = translate_size 2000001;
  generation = 1;
  mutable_flag = 1;
  childish = false;
}
fields-encode_header_example =
    fields-encode_header 42 2000001 1 1 (omega arith) (omega arith) (omega arith) (omega arith)

-- On a header with the shift flag the size that is read back is sixteen times the one written.
fields-encode_size_example :
    fields (encode_size 100 (2 ^ 2 + 1)) ≡ record (fields (2 ^ 2 + 1)) { size = 1600 }
fields-encode_size_example = fields-encode_size 100 (2 ^ 2 + 1) (omega arith) (omega arith)

-- The pattern of -5.
negative-IsValidInt : IsValidInt (2 ^ 32 - 5)
unfolding IsValidInt
negative-IsValidInt = inr (omega arith, omega arith)
