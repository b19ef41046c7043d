-- ===== src/ClientUtil/Examples.antt =====
-- An API server that holds one text, and writes a mark of its own into what it stores.
use Prim.Native.String.{◌++◌}
use greenhouse.Prelude.{◌≡◌, refl, String, false, ◌==◌, Option, none, some}
use greenhouse.Platform.{Fetched, found, failed}
use greenhouse.Platform.Examples.{plain_errors, not_found}
use greenhouse.ClientUtil.{ObjectClient, updated, create_or_patch}
use greenhouse.ClientUtil.Contract.{Succeeded, create_or_patch-Succeeded}

abbrev World : Type 0
World = Option String

abbrev read : World → Fetched String String
read none = failed not_found
read (some o) = found o

abbrev server : ObjectClient String World String
server = record {
  get = λ o w. read w;
  create = λ o w. (none, o ++ "!", some (o ++ "!"));
  patch = λ before o w. (none, o ++ "!", some (o ++ "!"));
  patch_status = λ before o w. (none, o, w);
  delete = λ o w. (none, none);
  is_deleting = λ o. false;
  deep_equal = λ a b. a == b;
  full_name = λ o. o;
}

patched : (create_or_patch plain_errors server "key" (λ o. (none, "new")) (some "old")).0.1 ≡ none
unfolding create_or_patch
patched = refl

create_or_patch-Succeeded_example :
    Succeeded plain_errors server "key"
      (λ o. (none, "new"))
      (some "old")
      updated
      "new!"
      (some "new!")
unfolding create_or_patch
create_or_patch-Succeeded_example =
    create_or_patch-Succeeded plain_errors server "key" (λ o. (none, "new")) (some "old") patched
