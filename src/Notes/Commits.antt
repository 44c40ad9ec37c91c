-- ===== src/Notes/Commits.antt =====
-- `commit_note_tree` of cpp/src/notes.cpp: the namespace has the new tree.
use vost.Common.{◌≡◌, refl, sym, ap, ◌∙◌, Option, none, some, Str, codes, is_empty}
use vost.Error.{ok, git_error}
use vost.Platform.{Platform, Commit}
use vost.Platform.Laws.{ObjectLaws, RefLaws, Keeps, Keeps-trans}
use vost.Exec.{reading, >>=-inv, reading-inv}
use vost.Tree.Read.{need, need-inv, hex_to_oid}
use vost.Tree.WriteCommit.{write_commit, or_empty}
use vost.Fs.Commit.{ref_commit, take_lock, with_repo_lock}
use vost.Fs.Steps.{Moved, committing-inv, changed, write_commit-inv}
use vost.Fs.Advance.{Moved-names, same_oid}
use vost.Fs.RoundTrip.{Moved-Keeps}
use vost.Notes.Tree.{find_note}
use vost.Notes.Namespace.{
  NoteNamespace, tip_oid, tree_oid, parent_list, commit_on_tip, commit_note_tree,
}
use vost.Notes.Refines.{IsNoteTree, find_note-eq}
use vost.Notes.Build.{IsNotes-Keeps}

module _ (p : Platform) where
  open p use {Repo, Oid, oid_fromstr, oid_tostr, commit_lookup}

  -- The tree that a namespace has, if any, by its reference and the commit there.
  abbrev pub IsTip : NoteNamespace → Repo → Option Str → Type 0
  IsTip ns repo none = ref_commit p repo ns.ref_name ≡ none
  IsTip ns repo (some hex) =
      (tip : Str) × (o : Oid) × (c : Commit Oid) × (ref_commit p repo ns.ref_name ≡ some tip)
      × (oid_fromstr tip ≡ some o)
      × (commit_lookup repo o ≡ some c)
      × (oid_tostr c.tree_id ≡ hex)

  -- A namespace with a tree of notes, or none.
  pub record IsSpace (ns : NoteNamespace) (repo : Repo) (base : Option Str) : Type 0 where
    pub tip : IsTip ns repo base
    pub tree : IsNoteTree p repo base

  pub tree_oid-eq :
      (ns : NoteNamespace) (repo : Repo) (base : Option Str)
      → IsTip ns repo base
      → tree_oid p ns repo ≡ ok base
  unfolding tree_oid tip_oid hex_to_oid need
  tree_oid-eq ns repo none h = rw (h, tree_oid) refl
  tree_oid-eq ns repo (some hex) (tip, o, c, names, parsed, looked, same) =
      rw (names, parsed, looked, tree_oid) (ap (λ x. ok (some x)) same)

  module _ (laws : ObjectLaws p) (refs : RefLaws p) where
    read_hex : (hex : Str) {o : Oid} → hex_to_oid p hex ≡ ok o → oid_fromstr hex ≡ some o
    unfolding hex_to_oid
    read_hex hex h = need-inv (oid_fromstr hex) _ h

    -- What `commit_on_tip` did: a commit of the tree, and the reference on it.
    committed :
        (ns : NoteNamespace) (hex message parent : Str) (repo : Repo) {repo' : Repo}
        → commit_on_tip p ns hex message parent repo ≡ (ok tt, repo')
        → (t : Oid) × (oid_fromstr hex ≡ some t)
          × IsTip ns repo' (some (oid_tostr t))
          × Keeps p repo repo'
    unfolding commit_on_tip
    committed ns hex message parent repo {repo'} h =
        let (commit, repo₁, made, h₁) =
          >>=-inv (write_commit p hex (parent_list p parent) ns.inner.signature message) _ repo h in
        let (oid, repo₂, read, h₂) = >>=-inv (reading (λ r. hex_to_oid p commit)) _ repo₁ h₁ in
        let (parsed, q) = reading-inv (λ r. hex_to_oid p commit) repo₁ read in
        let m =
          write_commit-inv p hex (parent_list p parent) ns.inner.signature message repo made in
        let call = committing-inv p _ (git_error (codes "notes ref update")) repo₂ h₂ in
        let moved : Moved p ns.ref_name commit message repo₁ repo' = record {
          oid = oid;
          parsed = read_hex commit parsed;
          change = changed p (is_empty parent) ns.ref_name oid message repo₁ (rw q call);
        } in
        let (c, found, tree_same, parents_of) =
          laws.lookup-commit repo m.author message m.tree_id m.parents m.oid repo₁ m.created in
        let (names, kept) =
          Moved-names p laws refs ns.ref_name commit message repo₁ repo' m.oid c m.named found
            moved in
        (
          m.tree_id,
          m.parsed,
          (
            commit,
            m.oid,
            c,
            names,
            ap oid_fromstr m.named ∙ laws.fromstr-tostr m.oid,
            kept,
            ap oid_tostr tree_same,
          ),
          Keeps-trans p
              (laws.commit-Keeps repo m.author message m.tree_id m.parents m.oid repo₁ m.created)
              (Moved-Keeps p laws refs ns.ref_name commit message repo₁ repo' moved),
        )

    -- When `commit_note_tree` returns, the namespace has a tree with the same notes as the one that
    -- it was given.
    pub commit_note_tree-IsSpace :
        (ns : NoteNamespace) (hex message : Str) (repo : Repo) {repo' : Repo}
        → IsNoteTree p repo (some hex)
        → commit_note_tree p ns hex message repo ≡ (ok tt, repo')
        → (hex' : Str) × IsSpace ns repo' (some hex')
          × Keeps p repo repo'
          × ((n : Str) → find_note p repo' hex' n ≡ find_note p repo hex n)
    unfolding commit_note_tree with_repo_lock
    commit_note_tree-IsSpace ns hex message repo {repo'} (o, t, parsed, looked, notes) h =
        let (u, repo₁, locked, run) = >>=-inv (reading (take_lock p ns.inner)) _ repo h in
        let (free, q) = reading-inv (take_lock p ns.inner) repo locked in
        let (id, read, tip, keeps₁) =
          committed ns hex message (or_empty (ref_commit p repo₁ ns.ref_name)) repo₁ run in
        let keeps : Keeps p repo repo' = rw q keeps₁ in
        let same : id ≡ o = same_oid p (sym read ∙ parsed) in
        let printed : oid_fromstr (oid_tostr id) ≡ some o = laws.fromstr-tostr id ∙ ap some same in
        let (kept, finds) = IsNotes-Keeps p laws (p.tree_entry_byname t) repo repo' keeps notes in
        let there = keeps.trees o t looked in
        (
          oid_tostr id,
          record { tip = tip; tree = (o, t, printed, there, kept) },
          keeps,
          λ n.
              find_note-eq p repo' (oid_tostr id) n o t printed there
              ∙ ap ok (finds n)
              ∙ sym (find_note-eq p repo hex n o t parsed looked),
        )
