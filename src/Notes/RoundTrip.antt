-- ===== src/Notes/RoundTrip.antt =====
-- `NoteNamespace` of cpp/src/notes.cpp: `get` after `set` and after `del`.
use vost.Common.{
  ◌≡◌, sym, ap, ◌∙◌, true, Option, none, some, [], ◌∷◌, Str, codes, str_eq, if◌then◌else◌,
}
use vost.Error.{ok, err, key_not_found, >>=-eq-ok}
use vost.Platform.{Platform}
use vost.Platform.Laws.{ObjectLaws, RefLaws, Keeps-trans}
use vost.Exec.{reading, >>=-inv, reading-inv}
use vost.Tree.Read.{need-inv}
use vost.Notes.Tree.{is_hex40, build_note_tree}
use vost.Notes.Namespace.{
  NoteNamespace, resolve_target, tree_oid, get, create_blob, set_note, set, base_for_del, del_note,
  del,
}
use vost.Notes.Refines.{deleted, written}
use vost.Notes.Build.{build_note_tree-refines}
use vost.Notes.Commits.{IsSpace, tree_oid-eq}
use vost.Notes.Reads.{is_hex40-IsHash, resolve_target-hex, get-hex, read_note-eq, read_note-missing}
use vost.Notes.Spaces.{OthersKept, others_kept, create_blob-inv, blob-IsSpace, changed_notes}

module _ (p : Platform) (laws : ObjectLaws p) (refs : RefLaws p) where
  open p use {
    Repo, Oid, oid_fromstr, oid_tostr, commit_lookup, blob_lookup, blob_create_from_buffer,
  }

  -- A note that was set is read back: when `set` returns, for a hash of 40 digits and a namespace
  -- that has a tree of notes or none, `get` of that hash returns the text, every other hash of 40
  -- digits has the note that it had, and the namespace has a tree of notes.
  pub get-set_note :
      (ns : NoteNamespace) (hash text : Str) (base : Option Str) (repo repo' : Repo)
      → is_hex40 hash ≡ true
      → IsSpace p ns repo base
      → set p ns hash text repo ≡ (ok tt, repo')
      → (get p ns hash repo' ≡ ok text)
        × OthersKept p laws refs ns hash repo repo'
        × ((hex : Str) × IsSpace p ns repo' (some hex))
  unfolding set set_note written deleted
  get-set_note ns hash text base repo repo' is_hash s h =
      let (target, repo₀, resolved, h₀) =
        >>=-inv (reading (λ r. resolve_target p r hash)) _ repo h in
      let (r, q₀) = reading-inv (λ r. resolve_target p r hash) repo resolved in
      let id : ok target ≡ ok hash = sym r ∙ resolve_target-hex p repo hash is_hash in
      let (blob_hex, repo₁, made, h₁) = >>=-inv (create_blob p text (codes "(note)")) _ repo₀ h₀ in
      let (o, named, blob) = create_blob-inv p laws refs text (codes "(note)") repo (rw q₀ made) in
      let (base', repo₂, based, h₂) = >>=-inv (reading (tree_oid p ns)) _ repo₁ h₁ in
      let (b, q₂) = reading-inv (tree_oid p ns) repo₁ based in
      let (s₁, same₁) = blob-IsSpace p laws refs ns text o base repo repo₁ blob s in
      let is_base : ok base' ≡ ok base = sym b ∙ tree_oid-eq p ns repo₁ base s₁.tip in
      let (hex, repo₃, built, h₃) =
        >>=-inv (build_note_tree p base' ((target, blob_hex) ∷ []) []) _ repo₂ h₂ in
      let run : build_note_tree p base ((hash, blob_hex) ∷ []) [] repo₁ ≡ (ok hex, repo₃) =
        cc (built, within is_base, within id, q₂) in
      let is_hash' = is_hex40-IsHash hash is_hash in
      let (finds, tree, keeps) =
        build_note_tree-refines p laws base ((hash, blob_hex) ∷ []) [] repo₁ s₁.tree
          ((is_hash', (o, named)), tt) tt run in
      let keeps_blob = laws.blob-Keeps repo text o repo₁ blob in
      let (hex', s', keeps', there, others) =
        changed_notes p laws refs ns hash hex (codes "Notes updated") base repo repo₃ repo'
          (some blob_hex) s tree (Keeps-trans p keeps_blob keeps)
          (λ n k. finds n k ∙ ap (λ x. ok (if str_eq hash n then some blob_hex else x)) (same₁ n))
          h₃ in
      let kept =
        (Keeps-trans p keeps keeps').blobs o text (laws.lookup-blob repo text o repo₁ blob) in
      (
        get-hex p ns hash repo' is_hash
            ∙ read_note-eq p ns hash hex' blob_hex o text repo' s'.tip (there is_hash')
                (ap oid_fromstr named ∙ laws.fromstr-tostr o) kept,
        others_kept p laws refs ns hash repo repo' others,
        (hex', s'),
      )
    where
      within : {A : Type 0} {x y : A} → ok x ≡ ok y → x ≡ y
      within h = cc

  -- A note that was deleted is gone: when `del` returns, for a hash of 40 digits and a namespace
  -- that has a tree of notes or none, `get` of that hash throws KeyNotFoundError, every other hash
  -- of 40 digits has the note that it had, and the namespace has a tree of notes.
  pub get-del_note :
      (ns : NoteNamespace) (hash : Str) (base : Option Str) (repo repo' : Repo)
      → is_hex40 hash ≡ true
      → IsSpace p ns repo base
      → del p ns hash repo ≡ (ok tt, repo')
      → (get p ns hash repo' ≡ err (key_not_found hash))
        × OthersKept p laws refs ns hash repo repo'
        × ((hex : Str) × IsSpace p ns repo' (some hex))
  unfolding del del_note base_for_del written deleted
  get-del_note ns hash base repo repo' is_hash s h =
      let (target, repo₀, resolved, h₀) =
        >>=-inv (reading (λ r. resolve_target p r hash)) _ repo h in
      let (r, q₀) = reading-inv (λ r. resolve_target p r hash) repo resolved in
      let id : ok target ≡ ok hash = sym r ∙ resolve_target-hex p repo hash is_hash in
      let (tree_hex, repo₁, based, h₁) = >>=-inv (reading (base_for_del p ns target)) _ repo₀ h₀ in
      let (b, q₁) = reading-inv (base_for_del p ns target) repo₀ based in
      let (base', t, there) = >>=-eq-ok (tree_oid p ns repo₀) _ b in
      let is_base : ok base' ≡ ok base =
        sym t ∙ ap (tree_oid p ns) (sym q₀) ∙ tree_oid-eq p ns repo base s.tip in
      let has_tree = need-inv base' (key_not_found target) there in
      let (hex, repo₂, built, h₂) =
        >>=-inv (build_note_tree p (some tree_hex) [] (target ∷ [])) _ repo₁ h₁ in
      let run : build_note_tree p base [] (hash ∷ []) repo ≡ (ok hex, repo₂) =
        cc (built, within is_base, has_tree, within id, q₀, q₁) in
      let is_hash' = is_hex40-IsHash hash is_hash in
      let (finds, tree, keeps) =
        build_note_tree-refines p laws base [] (hash ∷ []) repo s.tree tt (is_hash', tt) run in
      let (hex', s', keeps', gone, others) =
        changed_notes p laws refs ns hash hex (codes "Notes updated") base repo repo₂ repo' none s
          tree keeps finds h₂ in
      (
        get-hex p ns hash repo' is_hash
            ∙ read_note-missing p ns hash hex' repo' s'.tip (gone is_hash'),
        others_kept p laws refs ns hash repo repo' others,
        (hex', s'),
      )
    where
      within : {A : Type 0} {x y : A} → ok x ≡ ok y → x ≡ y
      within h = cc
