-- ===== src/Copy/DryRun.antt =====
-- `copy_in` and `sync_in` of cpp/src/copy.cpp in a dry run: blobs may be written, to find their
-- hashes, and no reference moves.
use vost.Common.{
  ℕ, Bool, true, false, ◌≡◌, refl, subst, ◌∙◌, Option, none, some, List, [], ◌∷◌, Str, codes, Map,
  find, if◌then◌else◌,
}
use vost.Error.{Result, ok, err, ok-injective, err≢ok}
use vost.Types.{Bytes, ChangeReport}
use vost.Platform.{Platform}
use vost.Platform.Laws.{RefLaws}
use vost.Exec.{Exec, ret, reading, lift, ◌>>=◌, after}
use vost.Fs.{Fs, require_writable, require_tree}
use vost.Copy.Disk.{LocalDisk, disk_walk, mode_from_disk, local_data}
use vost.Copy.Filters.{matches_filters}
use vost.Copy.In.{
  CopyOptions, normal_dest, existing_at, same_blob, is_unchanged, plan_file, plan_files,
  finish_copy, copy_in, plan_removes, finish_sync, disk_set, sync_in,
}

module _ (p : Platform) where
  open p use {Repo, Oid, reference_lookup, reference_peel, blob_create_from_buffer}

  pub record SameRefs (repo repo' : Repo) : Type 0 where
    pub lookups : (name : Str) → reference_lookup repo' name ≡ reference_lookup repo name
    pub peels : (r : p.Reference) → reference_peel repo' r ≡ reference_peel repo r

  SameRefs-refl : (repo : Repo) → SameRefs repo repo
  SameRefs-refl repo = record { lookups = λ name. refl; peels = λ r. refl }

  -- Code that moves no reference, and what it returns.
  abbrev Steady : {A : Type 0} → (A → Type 0) → Exec Repo A → Type 0
  Steady {A} Q m = (repo : Repo) → SameRefs repo (m repo).1 × ((a : A) → (m repo).0 ≡ ok a → Q a)

  abbrev Anything : {A : Type 0} → A → Type 0
  Anything a = Unit

  module _ {A B : Type 0} (Q : B → Type 0) where
    after-Steady :
        (repo : Repo) (r : Result A) (s : Repo) (f : A → Exec Repo B)
        → SameRefs repo s
        → ((a : A) → Steady Q (f a))
        → SameRefs repo (after r s f).1 × ((b : B) → (after r s f).0 ≡ ok b → Q b)
    after-Steady repo (err e) s f same k = (same, λ b h. absurd (err≢ok h))
    after-Steady repo (ok a) s f same k =
        let (more, result) = k a s in
        (
          record {
            lookups = λ name. more.lookups name ∙ same.lookups name;
            peels = λ r. more.peels r ∙ same.peels r;
          },
          result,
        )

    >>=-Steady :
        (m : Exec Repo A) (f : A → Exec Repo B)
        → Steady Anything m
        → ((a : A) → Steady Q (f a))
        → Steady Q (m >>= f)
    unfolding ◌>>=◌
    >>=-Steady m f h k repo = after-Steady repo (m repo).0 (m repo).1 f (h repo).0 k

  module _ {A : Type 0} where
    lift-Steady : (r : Result A) → Steady Anything (lift r)
    unfolding lift
    lift-Steady r repo = (SameRefs-refl repo, λ a h. tt)

    reading-Steady : (f : Repo → Result A) → Steady Anything (reading f)
    unfolding reading
    reading-Steady f repo = (SameRefs-refl repo, λ a h. tt)

    ret-Steady : (Q : A → Type 0) (a : A) → Q a → Steady Q (ret a)
    unfolding ret
    ret-Steady Q a q repo = (SameRefs-refl repo, λ b h. subst Q (ok-injective h) q)

  module _ (refs : RefLaws p) where
    is_unchanged-Steady :
        (checksum : Bool) (there : Option (Str × ℕ)) (content : Bytes) (mode : ℕ)
        → Steady Anything (is_unchanged p checksum there content mode)
    unfolding is_unchanged
    is_unchanged-Steady false there content mode repo = (SameRefs-refl repo, λ a h. tt)
    is_unchanged-Steady true none content mode repo = (SameRefs-refl repo, λ a h. tt)
    is_unchanged-Steady true (some (hex, old)) content mode repo =
        (by_blob (blob_create_from_buffer repo content) refl, λ a h. tt)
      where
        by_blob :
            (o : Option (Oid × Repo))
            → blob_create_from_buffer repo content ≡ o
            → SameRefs repo (same_blob p hex old mode repo o).1
        by_blob none e = SameRefs-refl repo
        by_blob (some (oid, repo')) e = record {
          lookups = λ name. refs.lookup-blob_create repo content oid repo' name e;
          peels = λ r. refs.peel-blob_create repo content oid repo' r e;
        }

    module _ (l : LocalDisk) where
      if-Steady :
          {A : Type 0} (b : Bool) (m n : Exec Repo A)
          → Steady Anything m
          → Steady Anything n
          → Steady Anything (if b then m else n)
      if-Steady true m n h k = h
      if-Steady false m n h k = k

      plan_file-Steady :
          (disk : l.State) (src dest_norm : Str) (opts : CopyOptions) (existing : Map (Str × ℕ))
          (rel : Str)
          → Steady Anything (plan_file p l disk src dest_norm opts existing rel)
      unfolding plan_file
      plan_file-Steady disk src dest_norm opts existing rel =
          let full = l.join src rel in
          >>=-Steady Anything _ _ (lift-Steady (mode_from_disk l disk full)) (λ mode.
            >>=-Steady Anything _ _ (lift-Steady (local_data l disk full mode)) (λ content.
              >>=-Steady Anything _ _
                (is_unchanged-Steady opts.checksum (find rel existing) content mode)
                (λ unchanged.
                  if-Steady unchanged _ _ (ret-Steady Anything [] tt) (
                    >>=-Steady Anything _ _ (lift-Steady _)
                      (λ planned. ret-Steady Anything _ tt)))))

      plan_files-Steady :
          (disk : l.State) (src dest_norm : Str) (opts : CopyOptions) (existing : Map (Str × ℕ))
          (rels : List Str)
          → Steady Anything (plan_files p l disk src dest_norm opts existing rels)
      unfolding plan_files
      plan_files-Steady disk src dest_norm opts existing [] = ret-Steady Anything [] tt
      plan_files-Steady disk src dest_norm opts existing (rel ∷ rels) =
          let rest = plan_files-Steady disk src dest_norm opts existing rels in
          if-Steady (matches_filters rel opts.incl opts.excl) _ _
            (>>=-Steady Anything _ _ (plan_file-Steady disk src dest_norm opts existing rel)
              (λ first. >>=-Steady Anything _ _ rest (λ more. ret-Steady Anything _ tt)))
            rest

      -- the snapshot that the call returns
      abbrev Returns : Fs → ChangeReport × Fs → Type 0
      Returns fs r = r.1 ≡ fs

      copy_in-Steady :
          (fs : Fs) (disk : l.State) (src dest : Str) (opts : CopyOptions)
          → opts.dry_run ≡ true
          → Steady (Returns fs) (copy_in p l fs disk src dest opts)
      unfolding copy_in finish_copy
      copy_in-Steady fs disk src dest opts dry =
          >>=-Steady (Returns fs) _ _ (lift-Steady (require_writable (codes "copy_in") fs))
            (λ branch. >>=-Steady (Returns fs) _ _ (lift-Steady (require_tree fs)) (λ tree_hex.
              >>=-Steady (Returns fs) _ _ (lift-Steady (normal_dest dest)) (λ dest_norm.
                >>=-Steady (Returns fs) _ _ (lift-Steady (disk_walk l disk src)) (λ files.
                  >>=-Steady (Returns fs) _ _
                    (if-Steady opts.checksum _ _ (reading-Steady (existing_at p tree_hex dest_norm))
                      (ret-Steady Anything [] tt))
                    (λ existing.
                      >>=-Steady (Returns fs) _ _
                        (plan_files-Steady disk src dest_norm opts existing files)
                        (λ planned. rw dry (ret-Steady (Returns fs) _ refl)))))))

      sync_in-Steady :
          (fs : Fs) (disk : l.State) (src dest : Str) (opts : CopyOptions)
          → opts.dry_run ≡ true
          → Steady (Returns fs) (sync_in p l fs disk src dest opts)
      unfolding sync_in finish_sync
      sync_in-Steady fs disk src dest opts dry =
          >>=-Steady (Returns fs) _ _ (lift-Steady (require_writable (codes "sync_in") fs))
            (λ branch. >>=-Steady (Returns fs) _ _ (lift-Steady (require_tree fs)) (λ tree_hex.
              >>=-Steady (Returns fs) _ _ (lift-Steady (normal_dest dest)) (λ dest_norm.
                >>=-Steady (Returns fs) _ _ (lift-Steady (disk_walk l disk src)) (λ files.
                  >>=-Steady (Returns fs) _ _ (reading-Steady (existing_at p tree_hex dest_norm))
                    (λ existing.
                      >>=-Steady (Returns fs) _ _
                        (plan_files-Steady disk src dest_norm opts existing files)
                        (λ planned.
                          >>=-Steady (Returns fs) _ _
                            (lift-Steady
                              (plan_removes p l dest_norm opts (disk_set p l opts files) existing))
                            (λ removed. rw dry (ret-Steady (Returns fs) _ refl))))))))

      -- A dry run of `copy_in` or `sync_in` moves no reference, whether it returns or throws: every
      -- name still leads to the reference and the commit that it led to. If it returns, the snapshot
      -- that it returns is the one it was called on.
      pub dry_run_lem :
          (fs : Fs) (disk : l.State) (src dest : Str) (opts : CopyOptions) (repo : Repo)
          → opts.dry_run ≡ true
          → SameRefs repo (copy_in p l fs disk src dest opts repo).1
            × SameRefs repo (sync_in p l fs disk src dest opts repo).1
            × ((r : ChangeReport × Fs)
                → (copy_in p l fs disk src dest opts repo).0 ≡ ok r
                → r.1 ≡ fs)
            × ((r : ChangeReport × Fs)
                → (sync_in p l fs disk src dest opts repo).0 ≡ ok r
                → r.1 ≡ fs)
      dry_run_lem fs disk src dest opts repo dry =
          let (copied, copy_result) = copy_in-Steady fs disk src dest opts dry repo in
          let (synced, sync_result) = sync_in-Steady fs disk src dest opts dry repo in
          (copied, synced, copy_result, sync_result)
