-- ===== src/Runtime/Startup/Migration.antt =====
-- migrateDataDir of cmd/appx/main.go loses no file.
use appx.Base.{
  ◌≡◌, refl, sym, subst, ◌∙◌, taken, not_taken, inl, inr, Bool, none, some, Option-cases, List, [],
  ◌∷◌, Bool-cases, if◌then◌else◌,
}
use appx.Base.Maps.{lookup, insert, delete, lookup-insert, lookup-delete, lookup-same}
use appx.Text.{Text, text_eq}
use appx.Runtime.Startup.{Dir, migrate_file, migrate_files, migrate_data_dir, legacy_files}

-- What the migration may do to a file: leave both directories as they are, or move it to a place where
-- there was none.
pub data Migrated (name : Text) (before after : Dir × Dir) : Type 0 where
  stays :
      lookup name after.0 ≡ lookup name before.0
      → lookup name after.1 ≡ lookup name before.1
      → Migrated name before after
  moves :
      (content : Text)
      → lookup name before.0 ≡ some content
      → lookup name before.1 ≡ none
      → lookup name after.0 ≡ none
      → lookup name after.1 ≡ some content
      → Migrated name before after

Migrated-trans :
    (name : Text) (a b c : Dir × Dir) → Migrated name a b → Migrated name b c → Migrated name a c
Migrated-trans name a b c (stays d i) (stays d' i') = stays (d' ∙ d) (i' ∙ i)
Migrated-trans name a b c (stays d i) (moves t d' i' g h) = moves t (sym d ∙ d') (sym i ∙ i') g h
Migrated-trans name a b c (moves t d i g h) (stays d' i') = moves t d i (d' ∙ g) (i' ∙ h)
Migrated-trans name a b c (moves t d i g h) (moves u d' i' g' h') =
    absurd (let z = h in let y = i' in cc)

migrated :
    (rename_ok : Text → Bool) (name content : Text) (data_dir internals : Dir)
    → lookup name data_dir ≡ some content
    → lookup name internals ≡ none
    → migrate_file rename_ok name (data_dir, internals) ≡ (
        if rename_ok name
        then (delete name data_dir, insert name content internals)
        else (data_dir, internals))
unfolding migrate_file
migrated rename_ok name content data_dir internals h k = rw (migrate_file, h, k) refl

moved :
    (name j content : Text) (data_dir internals : Dir)
    → lookup name data_dir ≡ some content
    → lookup name internals ≡ none
    → Migrated j (data_dir, internals) (delete name data_dir, insert name content internals)
moved name j content data_dir internals h k = elim (Bool-cases (text_eq name j)) [
  | inl same ↦
      moves content (lookup-same name j (some content) data_dir h same)
        (lookup-same name j none internals k same)
        (lookup-delete name j data_dir ∙ taken _ _ _ same)
        (lookup-insert name j content internals ∙ taken _ _ _ same)
  | inr other ↦
      stays (lookup-delete name j data_dir ∙ not_taken _ _ _ other)
        (lookup-insert name j content internals ∙ not_taken _ _ _ other)
]

migrate_file-Migrated :
    (rename_ok : Text → Bool) (name j : Text) (dirs : Dir × Dir)
    → Migrated j dirs (migrate_file rename_ok name dirs)
unfolding migrate_file
migrate_file-Migrated rename_ok name j (data_dir, internals) =
    elim (Option-cases (lookup name data_dir)) [
      | inl absent ↦ rw (migrate_file, absent) (stays refl refl)
      | inr (content, old) ↦ elim (Option-cases (lookup name internals)) [
        | inr (c, present) ↦ rw (migrate_file, old, present) (stays refl refl)
        | inl free ↦
            subst (Migrated j (data_dir, internals))
              (sym (migrated rename_ok name content data_dir internals old free))
              (elim (Bool-cases (rename_ok name)) [
                | inl done ↦ rw done (moved name j content data_dir internals old free)
                | inr failed ↦ rw failed (stays refl refl)
              ])
      ]
    ]

migrate_files-Migrated :
    (rename_ok : Text → Bool) (names : List Text) (j : Text) (dirs : Dir × Dir)
    → Migrated j dirs (migrate_files rename_ok names dirs)
unfolding migrate_files
migrate_files-Migrated rename_ok [] j dirs = stays refl refl
migrate_files-Migrated rename_ok (name ∷ names) j dirs =
    Migrated-trans j dirs (migrate_file rename_ok name dirs) _
      (migrate_file-Migrated rename_ok name j dirs)
      (migrate_files-Migrated rename_ok names j (migrate_file rename_ok name dirs))

-- Whichever renames succeed, the migration loses and overwrites nothing: for each name, either both
-- directories have after it what they had before, or the data directory had a file and the internals
-- directory none, and afterwards it is the other way round, with the same contents.
pub migrate_data_dir-Migrated :
    (rename_ok : Text → Bool) (j : Text) (dirs : Dir × Dir)
    → Migrated j dirs (migrate_data_dir rename_ok dirs)
unfolding migrate_data_dir
migrate_data_dir-Migrated rename_ok j dirs = migrate_files-Migrated rename_ok legacy_files j dirs
