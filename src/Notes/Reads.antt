-- ===== src/Notes/Reads.antt =====
-- `NoteNamespace::get` of cpp/src/notes.cpp: what it reads.
use vost.Common.{
  ◌≡◌, refl, sym, ap, ◌∙◌, Bool, true, false, not, Option, none, some, Str, length, ◌==◌, ==_iff,
  if◌then◌else◌,
}
use vost.Error.{ok, err, key_not_found, >>=-eq-ok, ok-injective}
use vost.Platform.{Platform}
use vost.Platform.Laws.{Keeps}
use vost.Tree.Read.{need, need-inv, hex_to_oid}
use vost.Notes.Tree.{is_hex40, all_hex, find_note}
use vost.Notes.Names.{IsHash}
use vost.Notes.Namespace.{NoteNamespace, resolve_target, tree_oid, read_note, get}
use vost.Notes.Refines.{notes_in, found}
use vost.Notes.Commits.{IsTip, tree_oid-eq}

pub is_hex40-IsHash : (hash : Str) → is_hex40 hash ≡ true → IsHash hash
unfolding is_hex40
is_hex40-IsHash hash h = (==_iff (length hash) 40).0 (by_length (length hash == 40) h)
  where
    by_length : (b : Bool) → (if not b then false else all_hex hash) ≡ true → b ≡ true
    by_length true h = refl
    by_length false h = cc

module _ (p : Platform) where
  open p use {
    Repo, Oid, oid_fromstr, oid_tostr, commit_lookup, blob_lookup, blob_create_from_buffer,
  }

  pub resolve_target-hex :
      (repo : Repo) (hash : Str) → is_hex40 hash ≡ true → resolve_target p repo hash ≡ ok hash
  unfolding resolve_target
  resolve_target-hex repo hash h = rw h refl

  pub get-hex :
      (ns : NoteNamespace) (hash : Str) (repo : Repo)
      → is_hex40 hash ≡ true
      → get p ns hash repo ≡ read_note p ns hash repo
  unfolding get
  get-hex ns hash repo h = rw (resolve_target-hex repo hash h) refl

  pub read_note-eq :
      (ns : NoteNamespace) (n hex blob_hex : Str) (o : Oid) (text : Str) (repo : Repo)
      → IsTip p ns repo (some hex)
      → find_note p repo hex n ≡ ok (some blob_hex)
      → oid_fromstr blob_hex ≡ some o
      → blob_lookup repo o ≡ some text
      → read_note p ns n repo ≡ ok text
  unfolding read_note hex_to_oid need
  read_note-eq ns n hex blob_hex o text repo tip finds parsed looked =
      rw (tree_oid-eq p ns repo (some hex) tip, finds, parsed, looked) refl

  pub read_note-missing :
      (ns : NoteNamespace) (n hex : Str) (repo : Repo)
      → IsTip p ns repo (some hex)
      → find_note p repo hex n ≡ ok none
      → read_note p ns n repo ≡ err (key_not_found n)
  unfolding read_note need
  read_note-missing ns n hex repo tip finds = rw (tree_oid-eq p ns repo (some hex) tip, finds) refl

  -- What `read_note` found when it returned.
  record IsRead (n hex text : Str) (repo : Repo) : Type 0 where
    blob_hex : Str
    oid : Oid
    finds : find_note p repo hex n ≡ ok (some blob_hex)
    parsed : oid_fromstr blob_hex ≡ some oid
    looked : blob_lookup repo oid ≡ some text

  read_note-inv :
      (ns : NoteNamespace) (n : Str) (repo : Repo) (base : Option Str) {text : Str}
      → IsTip p ns repo base
      → read_note p ns n repo ≡ ok text
      → (hex : Str) × (base ≡ some hex) × IsRead n hex text repo
  unfolding read_note hex_to_oid
  read_note-inv ns n repo base tip h =
      let (tree, t, k₁) = >>=-eq-ok (tree_oid p ns repo) _ h in
      let (hex, there, k₂) = >>=-eq-ok (need tree (key_not_found n)) _ k₁ in
      let (o, finds, k₃) = >>=-eq-ok (find_note p repo hex n) _ k₂ in
      let (blob_hex, some_blob, k₄) = >>=-eq-ok (need o (key_not_found n)) _ k₃ in
      let (oid, parsed, k₅) = >>=-eq-ok (hex_to_oid p blob_hex) _ k₄ in
      (
        hex,
        ok-injective (sym (tree_oid-eq p ns repo base tip) ∙ t) ∙ need-inv tree _ there,
        record {
          blob_hex = blob_hex;
          oid = oid;
          finds = finds ∙ ap ok (need-inv o _ some_blob);
          parsed = need-inv (oid_fromstr blob_hex) _ parsed;
          looked = need-inv (blob_lookup repo oid) _ k₅;
        },
      )

  -- A note that two trees both have is read in the later repository too.
  pub kept_note :
      (ns : NoteNamespace) (n hex : Str) (base : Option Str) (repo repo' : Repo) (text : Str)
      → IsTip p ns repo base
      → IsTip p ns repo' (some hex)
      → Keeps p repo repo'
      → find_note p repo' hex n ≡ ok (notes_in p repo base n)
      → read_note p ns n repo ≡ ok text
      → read_note p ns n repo' ≡ ok text
  kept_note ns n hex base repo repo' text tip tip' keeps finds h =
      let (hex₀, is, r) = read_note-inv ns n repo base tip h in
      read_note-eq ns n hex r.blob_hex r.oid text repo' tip'
        (finds ∙ ap ok (ap (λ b. notes_in p repo b n) is ∙ ap (found p) r.finds)) r.parsed
        (keeps.blobs r.oid text r.looked)
