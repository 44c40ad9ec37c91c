-- ===== src/Notes/Spaces.antt =====
-- What the steps of `set` and `del` of cpp/src/notes.cpp do to the notes of a namespace.
use vost.Common.{
  ◌≡◌, refl, sym, ap, ◌∙◌, true, false, Option, none, some, Str, str_eq, str_eq_refl, if◌then◌else◌,
}
use vost.Error.{ok}
use vost.Platform.{Platform}
use vost.Platform.Laws.{ObjectLaws, RefLaws, Keeps, Keeps-trans}
use vost.Exec.{ret-inv, >>=-inv}
use vost.Fs.Commit.{storing, ref_commit}
use vost.Notes.Tree.{is_hex40, find_note}
use vost.Notes.Names.{IsHash}
use vost.Notes.Fanout.{storing-inv}
use vost.Notes.Namespace.{NoteNamespace, read_note, get, create_blob, commit_note_tree}
use vost.Notes.Refines.{IsNoteTree, notes_in, found, find_note-eq}
use vost.Notes.Build.{IsNotes-Keeps}
use vost.Notes.Commits.{IsSpace, commit_note_tree-IsSpace}
use vost.Notes.Reads.{is_hex40-IsHash, get-hex, kept_note}

module _ (p : Platform) (laws : ObjectLaws p) (refs : RefLaws p) where
  open p use {
    Repo, Oid, oid_fromstr, oid_tostr, commit_lookup, blob_lookup, blob_create_from_buffer,
  }

  -- Every other note that could be read can still be read.
  abbrev pub OthersKept : NoteNamespace → Str → Repo → Repo → Type 0
  OthersKept ns hash repo repo' =
      (n text : Str)
      → is_hex40 n ≡ true
      → str_eq hash n ≡ false
      → get p ns n repo ≡ ok text
      → get p ns n repo' ≡ ok text

  pub others_kept :
      (ns : NoteNamespace) (hash : Str) (repo repo' : Repo)
      → ((n text : Str)
          → IsHash n
          → str_eq hash n ≡ false
          → read_note p ns n repo ≡ ok text
          → read_note p ns n repo' ≡ ok text)
      → OthersKept ns hash repo repo'
  others_kept ns hash repo repo' k n text hex other h =
      get-hex p ns n repo' hex
      ∙ k n text (is_hex40-IsHash n hex) other (sym (get-hex p ns n repo hex) ∙ h)

  pub create_blob-inv :
      (text place : Str) (repo : Repo) {blob_hex : Str} {repo' : Repo}
      → create_blob p text place repo ≡ (ok blob_hex, repo')
      → (o : Oid) × (blob_hex ≡ oid_tostr o) × (blob_create_from_buffer repo text ≡ some (o, repo'))
  unfolding create_blob
  create_blob-inv text place repo {blob_hex} {repo'} h =
      let (o, repo₁, stored, rest) =
        >>=-inv (storing p (λ r. blob_create_from_buffer r text) _) _ repo h in
      let (named, q) = ret-inv (oid_tostr o) repo₁ rest in
      (o, sym named, rw (← q) (storing-inv p (λ r. blob_create_from_buffer r text) _ repo stored))

  ref_commit-blob :
      (text name : Str) (o : Oid) (repo repo' : Repo)
      → blob_create_from_buffer repo text ≡ some (o, repo')
      → ref_commit p repo' name ≡ ref_commit p repo name
  unfolding ref_commit
  ref_commit-blob text name o repo repo' h =
      rw (refs.lookup-blob_create repo text o repo' name h, ref_commit)
        (go (p.reference_lookup repo name))
    where
      go :
          (r : Option p.Reference)
          → elim r as (λ x. Option Str) [
            | none ↦ none
            | some ref ↦ elim (p.reference_peel repo' ref) as (λ x. Option Str) [
              | none ↦ none
              | some oid ↦ some (oid_tostr oid)
            ]
          ]
            ≡ elim r as (λ x. Option Str) [
              | none ↦ none
              | some ref ↦ elim (p.reference_peel repo ref) as (λ x. Option Str) [
                | none ↦ none
                | some oid ↦ some (oid_tostr oid)
              ]
            ]
      go none = refl
      go (some ref) =
          ap (λ x. elim x as (λ y. Option Str) [ none ↦ none | some oid ↦ some (oid_tostr oid) ])
            (refs.peel-blob_create repo text o repo' ref h)

  -- The tree of a namespace after a blob was written.
  pub blob-IsSpace :
      (ns : NoteNamespace) (text : Str) (o : Oid) (base : Option Str) (repo repo' : Repo)
      → blob_create_from_buffer repo text ≡ some (o, repo')
      → IsSpace p ns repo base
      → IsSpace p ns repo' base × ((n : Str) → notes_in p repo' base n ≡ notes_in p repo base n)
  blob-IsSpace ns text o none repo repo' h s = (
    record { tip = ref_commit-blob text ns.ref_name o repo repo' h ∙ s.tip; tree = tt },
    λ n. refl,
  )
  blob-IsSpace ns text o (some hex) repo repo' h s =
      let keeps = laws.blob-Keeps repo text o repo' h in
      let (tip, c, commit, names, parsed, looked, same) = s.tip in
      let (oid, t, read, there, notes) = s.tree in
      let (kept, finds) = IsNotes-Keeps p laws (p.tree_entry_byname t) repo repo' keeps notes in
      (
        record {
          tip = (
            tip,
            c,
            commit,
            ref_commit-blob text ns.ref_name o repo repo' h ∙ names,
            parsed,
            keeps.commits c commit looked,
            same,
          );
          tree = (oid, t, read, keeps.trees oid t there, kept);
        },
        λ n. ap (found p) (
            find_note-eq p repo' hex n oid t read (keeps.trees oid t there)
            ∙ ap ok (finds n)
            ∙ sym (find_note-eq p repo hex n oid t read there)),
      )

  -- What one call of `set` or `del` does to the notes, read by their hashes.
  pub changed_notes :
      (ns : NoteNamespace) (hash hex message : Str) (base : Option Str) (repo repo₁ repo' : Repo)
      (value : Option Str)
      → IsSpace p ns repo base
      → IsNoteTree p repo₁ (some hex)
      → Keeps p repo repo₁
      → ((n : Str)
          → IsHash n
          → find_note p repo₁ hex n ≡ ok (if str_eq hash n then value else notes_in p repo base n))
      → commit_note_tree p ns hex message repo₁ ≡ (ok tt, repo')
      → (hex' : Str) × IsSpace p ns repo' (some hex')
        × Keeps p repo₁ repo'
        × (IsHash hash → find_note p repo' hex' hash ≡ ok value)
        × ((n text : Str)
            → IsHash n
            → str_eq hash n ≡ false
            → read_note p ns n repo ≡ ok text
            → read_note p ns n repo' ≡ ok text)
  changed_notes ns hash hex message base repo repo₁ repo' value s tree k finds h =
      let (hex', s', keeps, same) =
        commit_note_tree-IsSpace p laws refs ns hex message repo₁ tree h in
      let keeps' = Keeps-trans p k keeps in
      (
        hex',
        s',
        keeps,
        λ is_hash. same hash ∙ finds hash is_hash ∙ rw (str_eq_refl hash) refl,
        λ n text is_hash other.
            kept_note p ns n hex' base repo repo' text s.tip s'.tip keeps'
              (same n ∙ finds n is_hash ∙ rw other refl),
      )
