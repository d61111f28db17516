-- ===== src/Tests/Sync.antt =====
-- An answer that is longer than the memory of its caller.
use elephants.Base.{◌≤◌, ◌≡◌, refl, none, [], ◌∷◌, ◌++◌, pos, length, drop}
use elephants.Session.Sync.{Space, Answer, data_answer, copied, copy}
use elephants.Session.Sync.Fitting.{fitting, told_len, copy-fitting}

abbrev space : Space
space = record { len = pos 2; bytes = 0 ∷ 0 ∷ [] }

abbrev answer : Answer
answer = data_answer (pos 3) (7 ∷ 8 ∷ 9 ∷ [])

copy-fitting_example :
    (copy none space answer
      ≡ copied (record {
        len = told_len space answer;
        bytes =
            fitting none answer (length space.bytes)
            ++ drop (length (fitting none answer (length space.bytes))) space.bytes;
      }))
    × (length (fitting none answer (length space.bytes)) ≤ length space.bytes)
copy-fitting_example = copy-fitting none space answer refl refl
