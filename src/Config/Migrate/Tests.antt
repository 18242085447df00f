-- ===== src/Config/Migrate/Tests.antt =====
-- An installation in one directory, with a file that is the operator's own.
use talkeqidea.Common.{◌≡◌, refl, true, false, [], ◌∷◌, some, List, Text, codes, lookup, text_eq}
use talkeqidea.Config.Migrate.{Disk, Paths, ConfigFile, legacy_data_names, migrate}
use mathlib.Core.List.Permᴰ
use talkeqidea.Config.Migrate.Steps.{is_legacy}
use talkeqidea.Config.Migrate.Kept.{migrate_keeps}

abbrev flat : Paths
flat = record {
  dir = λ path. codes ".";
  base = λ path. path;
  join = λ dir name. name;
  is_abs = λ path. false;
  range = λ m. m;
}

abbrev one_field : ConfigFile (List Text)
one_field = record {
  load = λ content. some (content ∷ []);
  encode = λ fields. some (codes "saved");
  fields = λ fields. fields;
  with_fields = λ old fields. fields;
}

abbrev old_disk : Disk
old_disk =
    (codes "talkeq.conf", codes "talkeq_users.txt")
    ∷ (codes "talkeq_users.txt", codes "1: Ann")
    ∷ (codes "notes.txt", codes "mine")
    ∷ []

migrate_keeps_example :
    lookup
      (codes "notes.txt")
      (migrate flat (λ old new. true) one_field (codes "modern-eq-chat.conf") old_disk).0
    ≡ some (codes "mine")
unfolding is_legacy lookup text_eq
migrate_keeps_example =
    migrate_keeps flat (λ old new. true) one_field (codes "modern-eq-chat.conf") (codes "notes.txt")
      (codes "mine") old_disk
      (record {
        plain = λ name h. refl;
        joined = λ dir name h. refl;
        ranged = Permᴰ.refl legacy_data_names;
      })
      refl refl refl refl
