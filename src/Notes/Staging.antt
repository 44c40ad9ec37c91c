-- ===== src/Notes/Staging.antt =====
-- `NotesBatch` of cpp/src/notes.cpp: what is staged, as changes of the map from hashes to notes.
use vost.Common.{
  ◌≡◌, refl, ap, subst, ◌∙◌, inl, inr, Bool, true, false, Option, none, some, List, [], ◌∷◌, ◌++◌,
  Str, str_eq, str_eq→eq, str_eq_refl, Bool-cases, keep, any, if◌then◌else◌,
}
use vost.Notes.Batch.{NotesBatch, erase_deletes, erase_writes, stage_write, stage_delete}
use vost.Notes.Updates.{updated}
use vost.Notes.Refines.{deleted, written}

written-at :
    (w : List (Str × Str)) (f g : Str → Option Str) (n : Str)
    → f n ≡ g n
    → written w f n ≡ written w g n
unfolding written
written-at [] f g n h = h
written-at ((j, x) ∷ w) f g n h =
    written-at w (updated j (some x) f) (updated j (some x) g) n
      (ap (λ y. if str_eq j n then some x else y) h)

deleted-at :
    (d : List Str) (f g : Str → Option Str) (n : Str) → f n ≡ g n → deleted d f n ≡ deleted d g n
unfolding deleted
deleted-at [] f g n h = h
deleted-at (j ∷ d) f g n h =
    deleted-at d (updated j none f) (updated j none g) n
      (ap (λ y. if str_eq j n then none else y) h)

written-append :
    (w : List (Str × Str)) (h x : Str) (f : Str → Option Str) (n : Str)
    → written (w ++ ((h, x) ∷ [])) f n ≡ updated h (some x) (written w f) n
unfolding written
written-append [] h x f n = refl
written-append ((j, y) ∷ w) h x f n = written-append w h x (updated j (some y) f) n

deleted-append :
    (d : List Str) (h : Str) (f : Str → Option Str) (n : Str)
    → deleted (d ++ (h ∷ [])) f n ≡ updated h none (deleted d f) n
unfolding deleted
deleted-append [] h f n = refl
deleted-append (j ∷ d) h f n = deleted-append d h (updated j none f) n

-- Erased writes of `h` do not matter elsewhere, and there is none left there.
written-erase_other :
    (w : List (Str × Str)) (h n : Str) (f : Str → Option Str)
    → str_eq h n ≡ false
    → written (erase_writes h w) f n ≡ written w f n
unfolding written erase_writes
written-erase_other [] h n f apart = refl
written-erase_other ((j, x) ∷ w) h n f apart = elim (Bool-cases (str_eq j h)) [
  | inl same ↦
      let other : str_eq j n ≡ false = rw (str_eq→eq j h same) apart in
      rw (same, keep)
        (written-erase_other w h n f apart
          ∙ written-at w f (updated j (some x) f) n (rw other refl))
  | inr differs ↦ rw (differs, keep) (written-erase_other w h n (updated j (some x) f) apart)
]

written-erase_same :
    (w : List (Str × Str)) (h : Str) (f : Str → Option Str) → written (erase_writes h w) f h ≡ f h
unfolding written erase_writes
written-erase_same [] h f = refl
written-erase_same ((j, x) ∷ w) h f = elim (Bool-cases (str_eq j h)) [
  | inl same ↦ rw (same, keep) (written-erase_same w h f)
  | inr differs ↦
      rw (differs, keep) (written-erase_same w h (updated j (some x) f) ∙ rw differs refl)
]

deleted-erase_other :
    (d : List Str) (h n : Str) (f : Str → Option Str)
    → str_eq h n ≡ false
    → deleted (erase_deletes h d) f n ≡ deleted d f n
unfolding deleted erase_deletes
deleted-erase_other [] h n f apart = refl
deleted-erase_other (j ∷ d) h n f apart = elim (Bool-cases (str_eq j h)) [
  | inl same ↦
      let other : str_eq j n ≡ false = rw (str_eq→eq j h same) apart in
      rw (same, keep)
        (deleted-erase_other d h n f apart ∙ deleted-at d f (updated j none f) n (rw other refl))
  | inr differs ↦ rw (differs, keep) (deleted-erase_other d h n (updated j none f) apart)
]

deleted-none : (d : List Str) (h : Str) (f : Str → Option Str) → f h ≡ none → deleted d f h ≡ none
unfolding deleted
deleted-none [] h f e = e
deleted-none (j ∷ d) h f e = deleted-none d h (updated j none f) (gone (str_eq j h) e)
  where
    gone : (b : Bool) {x : Option Str} → x ≡ none → (if b then none else x) ≡ none
    gone true e = refl
    gone false e = e

deleted-member :
    (d : List Str) (h : Str) (f : Str → Option Str)
    → any (λ j. str_eq j h) d ≡ true
    → deleted d f h ≡ none
unfolding deleted
deleted-member [] h f m = cc
deleted-member (j ∷ d) h f m = elim (Bool-cases (str_eq j h)) [
  | inl same ↦ deleted-none d h (updated j none f) (rw same refl)
  | inr differs ↦ deleted-member d h (updated j none f) (rw (differs, any) at m)
]

-- A change of one note, as a call on the batch makes it.
pub data Change : Type 0 where
  put : Str → Str → Change
  drop_note : Str → Change

unfoldable pub stage : NotesBatch → Change → NotesBatch
unfolding stage_write stage_delete
stage b (put h text) = stage_write b h text
stage b (drop_note h) = stage_delete b h

unfoldable pub stage_all : NotesBatch → List Change → NotesBatch
unfolding stage
stage_all b [] = b
stage_all b (c ∷ cs) = stage_all (stage b c) cs

-- The changes made at once on the map.
unfoldable pub apply_all : List Change → (Str → Option Str) → Str → Option Str
apply_all [] f = f
apply_all (put h text ∷ cs) f = apply_all cs (updated h (some text) f)
apply_all (drop_note h ∷ cs) f = apply_all cs (updated h none f)

-- The map that the staged deletes and writes make of `f`.
abbrev pub staged : NotesBatch → (Str → Option Str) → Str → Option Str
staged b f = written b.writes (deleted b.deletes f)

stage_write-updated :
    (b : NotesBatch) (h text : Str) (f : Str → Option Str) (n : Str)
    → staged (stage_write b h text) f n ≡ updated h (some text) (staged b f) n
unfolding stage_write
stage_write-updated b h text f n =
    written-append (erase_writes h b.writes) h text (deleted (erase_deletes h b.deletes) f) n
    ∙ elim (Bool-cases (str_eq h n)) [
      | inl same ↦ rw same refl
      | inr other ↦ rw other (
          written-erase_other b.writes h n (deleted (erase_deletes h b.deletes) f) other
          ∙ written-at b.writes (deleted (erase_deletes h b.deletes) f) (deleted b.deletes f) n
              (deleted-erase_other b.deletes h n f other))
    ]

-- After a delete was staged its hash is among the deletes, and no other hash is new there.
deletes-updated :
    (d : List Str) (h : Str) (f : Str → Option Str) (n : Str)
    → deleted (if any (λ j. str_eq j h) d then d else d ++ (h ∷ [])) f n
      ≡ updated h none (deleted d f) n
deletes-updated d h f n = elim (Bool-cases (any (λ j. str_eq j h) d)) [
  | inl m ↦ rw m (elim (Bool-cases (str_eq h n)) [
    | inl same ↦
        rw same (subst (λ k. deleted d f k ≡ none) (str_eq→eq h n same) (deleted-member d h f m))
    | inr other ↦ rw other refl
  ])
  | inr absent ↦ rw absent (deleted-append d h f n)
]

stage_delete-updated :
    (b : NotesBatch) (h : Str) (f : Str → Option Str) (n : Str)
    → staged (stage_delete b h) f n ≡ updated h none (staged b f) n
unfolding stage_delete
stage_delete-updated b h f n = elim (Bool-cases (str_eq h n)) [
  | inl same ↦ rw same (
      subst (λ k. written (erase_writes h b.writes) (deleted (stage_delete b h).deletes f) k ≡ none)
        (str_eq→eq h n same)
        (written-erase_same b.writes h (deleted (stage_delete b h).deletes f)
          ∙ deletes-updated b.deletes h f h
          ∙ rw (str_eq_refl h) refl))
  | inr other ↦ rw other (
      written-erase_other b.writes h n (deleted (stage_delete b h).deletes f) other
      ∙ written-at b.writes (deleted (stage_delete b h).deletes f) (deleted b.deletes f) n
          (deletes-updated b.deletes h f n ∙ rw other refl))
]

apply_all-at :
    (cs : List Change) (f g : Str → Option Str)
    → ((n : Str) → f n ≡ g n)
    → (n : Str) → apply_all cs f n ≡ apply_all cs g n
unfolding apply_all
apply_all-at [] f g e n = e n
apply_all-at (put h text ∷ cs) f g e n =
    apply_all-at cs (updated h (some text) f) (updated h (some text) g)
      (λ k. ap (λ y. if str_eq h k then some text else y) (e k)) n
apply_all-at (drop_note h ∷ cs) f g e n =
    apply_all-at cs (updated h none f) (updated h none g)
      (λ k. ap (λ y. if str_eq h k then none else y) (e k)) n

-- A batch keeps its changes in the form in which `build_note_tree` takes them, and loses none:
-- whatever calls of `set` and `del` are staged after what the batch holds, its deletes followed by
-- its writes make of any map what those changes make of it one by one, in the order of the calls.
pub stage_all-apply :
    (b : NotesBatch) (cs : List Change) (f : Str → Option Str) (n : Str)
    → staged (stage_all b cs) f n ≡ apply_all cs (staged b f) n
unfolding stage_all stage apply_all
stage_all-apply b [] f n = refl
stage_all-apply b (put h text ∷ cs) f n =
    stage_all-apply (stage_write b h text) cs f n
    ∙ apply_all-at cs (staged (stage_write b h text) f) (updated h (some text) (staged b f))
        (stage_write-updated b h text f) n
stage_all-apply b (drop_note h ∷ cs) f n =
    stage_all-apply (stage_delete b h) cs f n
    ∙ apply_all-at cs (staged (stage_delete b h) f) (updated h none (staged b f))
        (stage_delete-updated b h f) n
