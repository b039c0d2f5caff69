-- ===== src/Tests/Records.antt =====
-- A witness on an index with no record.
use mathlib.Core.List.{Perm}
use diffdossier.Prelude.{false, true, [], ◌∷◌, ◌++◌, any, ok, refl, ◌≡◌, sort_by, insert_by}
use diffdossier.Results.{Validation}
use diffdossier.Results.Index.{
  Index, ResultJson, same_pass, fresh_index, opened_index, sort_records, recorded, append,
  verify_record,
}
use diffdossier.Results.Records.{append-Perm}
use diffdossier.Tests.Encoders.{sha}
use diffdossier.Tests.Ledgers.{result}

abbrev json : ResultJson
json = record { encode = λ r. r.task_id }

abbrev validation : Validation
validation = record { accepted = true; completed = true }

abbrev appended_index : Index
appended_index = record {
  schema_version = "1.0";
  records = recorded sha json result validation "results/t/pass.json" 1 ∷ [];
}

append-succeeds :
    append sha json fresh_index result validation "results/t/pass.json" 1 ≡ ok appended_index
unfolding append sort_records sort_by insert_by
append-succeeds = refl

append-Perm_example :
    Perm appended_index.records (
      (opened_index fresh_index).records
      ++ recorded sha json result validation "results/t/pass.json" 1 ∷ [])
    × (any (same_pass result) (opened_index fresh_index).records ≡ false)
    × (verify_record sha json
          (recorded sha json result validation "results/t/pass.json" 1)
          result
          validation
        ≡ ok tt)
append-Perm_example =
    append-Perm sha json fresh_index appended_index result validation "results/t/pass.json" 1
      append-succeeds refl
