-- ===== src/Tests/File.antt =====
-- The file store over a directory that is a dict, run and instantiated.
use persista.Common.{
  ℕ, false, String, text_keys, [], ◌∷◌, ◌≡◌, refl, ok, err, runtime_error, some, none, is_some,
  arith,
}
use persista.Dict
use persista.Dict.{Dict}
use persista.Dict.Laws
use persista.Tests.Stores.{nat_object}
use persista.Store.Conflicts.{member}
use persista.Store.Conflicts.Members.{member-keys}
use persista.Store.Normalize.{normalize_on_conflict}
use persista.Store.Types.{Fields}
use persista.Store.Base.{IsStore}
use persista.Store.Batching.{chunks}
use persista.Store.File
use persista.Store.File.{FileStore, Files, IsFiles, Naming, json_naming, ends_with}
use persista.Store.File.Contract
use persista.Store.File.Reads
use persista.Store.File.Reads.{IsNaming}

-- a directory: the contents of its files by their names
abbrev files : Files ℕ
files = record {
  Fs = Dict String (Fields ℕ);
  mkdir = λ d. d;
  is_other = λ d. false;
  is_file = λ d n. is_some (Dict.get d n);
  unlink = Dict.pop;
  names = Dict.keys;
  save = λ n v d. (ok tt, Dict.set d n v);
  load = λ d n. elim (Dict.get d n) [ none ↦ err runtime_error | some v ↦ ok v ];
}

files-IsFiles : IsFiles files Dict.get
unfolding Dict.get member
files-IsFiles = record {
  file_content = λ d n. refl;
  load_content = λ d n v e. ground (arith, e);
  saves = λ d n v. refl;
  content_save = λ d n m v. Laws.get-set d n m v;
  content_unlink = λ d n m. Laws.get-pop d n m;
  file_names = λ d n e. ground (arith, member-keys d n);
}

naming : Naming
naming = json_naming (λ k. k) (λ k. k)

naming-IsNaming : IsNaming naming
unfolding naming
naming-IsNaming = record { round_trip = λ k. refl }

file_store-IsStore_example :
    IsStore
      (Contract.file_store files naming chunks)
      (Reads.view files naming files-IsFiles naming-IsNaming)
file_store-IsStore_example =
    Contract.file_store-IsStore files naming chunks files-IsFiles naming-IsNaming

-- one value, and a file of another kind
one : FileStore files.Fs
one = record { closed = false; fs = ("ann.json", ("age", 30) ∷ []) ∷ ("notes.txt", []) ∷ [] }

merged :
    (File.get files naming "ann" (File.set files naming "ann" (("level", 1) ∷ []) "merge" one).1).0
    ≡ ok (some (("age", 30) ∷ ("level", 1) ∷ []))
unfolding naming one File.get File.set normalize_on_conflict Dict.get Dict.set Dict.update
merged = refl

listed : (File.keys files naming one).0 ≡ ok ("ann" ∷ [])
unfolding naming one File.keys Dict.get
listed = refl

cleared : (File.clear files naming one).1.fs ≡ ("notes.txt", []) ∷ []
unfolding naming one File.clear Dict.get Dict.pop
cleared = refl
