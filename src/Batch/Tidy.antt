-- ===== src/Batch/Tidy.antt =====
-- The lists of a batch of cpp/src/batch.cpp: no path stands twice, and none is both written and removed.
use vost.Common.{
  ℕ, Option, ◌≡◌, refl, ap, ◌∙◌, Bool, true, false, not, ◌&&◌, List, [], ◌∷◌, ◌++◌, Str, str_eq,
  str_eq_refl, any, map, if◌then◌else◌, arith,
}
use vost.Error.{ok}
use vost.Types.{Bytes}
use vost.Paths.{normalize}
use vost.Tree.Rebuild.{Write}
use vost.Batch.{Batch, erase_writes, erase_removes, new_batch, write_with_mode, remove}
use vost.Batch.Staging.{
  any-append, any-add, any-erase_removes, same_test, write_with_mode-inv, remove-inv,
}
use vost.Fs.{Fs}

-- No name stands twice.
abbrev pub Distinct : List Str → Type 0
Distinct [] = Unit
Distinct (x ∷ xs) = (any (λ r. str_eq r x) xs ≡ false) × Distinct xs

abbrev pub keys : List Write → List Str
keys ws = map (λ (w : Write). w.path) ws

pub record IsTidy (b : Batch) : Type 0 where
  pub writes_once : Distinct (keys b.writes)
  pub removes_once : Distinct b.removes
  pub apart :
      (q : Str) → (any (λ r. str_eq r q) (keys b.writes) && any (λ r. str_eq r q) b.removes) ≡ false

keys-if :
    (a : Bool) (w : Write) (ws : List Write)
    → keys (elim a [ true ↦ w ∷ ws | false ↦ ws ])
      ≡ elim a [ true ↦ w.path ∷ keys ws | false ↦ keys ws ]
keys-if true w ws = refl
keys-if false w ws = refl

keys-erase_writes :
    (norm : Str) (ws : List Write) → keys (erase_writes norm ws) ≡ erase_removes norm (keys ws)
unfolding erase_writes erase_removes
keys-erase_writes norm [] = refl
keys-erase_writes norm (w ∷ ws) =
    keys-if (not (str_eq w.path norm)) w (erase_writes norm ws)
    ∙ ap
        (λ (ks : List Str). elim (not (str_eq w.path norm)) as (λ x. List Str) [
          | true ↦ w.path ∷ ks
          | false ↦ ks
        ])
        (keys-erase_writes norm ws)

keys-append : (ws vs : List Write) → keys (ws ++ vs) ≡ keys ws ++ keys vs
keys-append [] vs = refl
keys-append (w ∷ ws) vs = ap (λ ks. w.path ∷ ks) (keys-append ws vs)

Distinct-if :
    (a : Bool) (x : Str) (xs : List Str)
    → any (λ r. str_eq r x) xs ≡ false
    → Distinct xs
    → Distinct (elim a [ true ↦ x ∷ xs | false ↦ xs ])
Distinct-if true x xs n d = (n, d)
Distinct-if false x xs n d = d

Distinct-erase_removes :
    (norm : Str) (xs : List Str) → Distinct xs → Distinct (erase_removes norm xs)
unfolding erase_removes
Distinct-erase_removes norm [] d = tt
Distinct-erase_removes norm (x ∷ xs) (n, d) =
    Distinct-if (not (str_eq x norm)) x (erase_removes norm xs)
      (any-erase_removes x norm xs ∙ ground (arith, n)) (Distinct-erase_removes norm xs d)

Distinct-append :
    (norm : Str) (xs : List Str)
    → Distinct xs
    → any (λ r. str_eq r norm) xs ≡ false
    → Distinct (xs ++ (norm ∷ []))
Distinct-append norm [] d m = (refl, tt)
Distinct-append norm (x ∷ xs) (n, d) m = (
  any-append x xs (norm ∷ []) ∙ ground (arith, n, m, (same_test x norm x).1, str_eq_refl x),
  Distinct-append norm xs d (ground (arith, m)),
)

Distinct-add :
    (a : Bool) (norm : Str) (xs : List Str)
    → any (λ r. str_eq r norm) xs ≡ a
    → Distinct xs
    → Distinct (if a then xs else xs ++ (norm ∷ []))
Distinct-add true norm xs m d = d
Distinct-add false norm xs m d = Distinct-append norm xs d m

erased : (norm : Str) (xs : List Str) → any (λ r. str_eq r norm) (erase_removes norm xs) ≡ false
erased norm xs = any-erase_removes norm norm xs ∙ rw (str_eq_refl norm) refl

pub new_batch-IsTidy :
    (fs : Fs) (message operation : Option Str) (parents : List Str)
    → IsTidy (new_batch fs message operation parents)
unfolding new_batch
new_batch-IsTidy fs message operation parents = record {
  writes_once = tt;
  removes_once = tt;
  apart = λ q. refl;
}

-- Staging a write keeps the lists of the batch tidy.
pub write_with_mode-IsTidy :
    (b : Batch) (path : Str) (content : Bytes) (mode : ℕ) {b' : Batch} {norm : Str}
    → normalize path ≡ ok norm
    → write_with_mode b path content mode ≡ ok b'
    → IsTidy b
    → IsTidy b'
write_with_mode-IsTidy b path content mode {b'} {norm} n h t =
    let (open_, e) = write_with_mode-inv b path content mode n h in
    let w : Write = record { path = norm; content = content; mode = mode } in
    let k : keys (erase_writes norm b.writes ++ (w ∷ []))
        ≡ erase_removes norm (keys b.writes) ++ (norm ∷ []) =
      keys-append (erase_writes norm b.writes) (w ∷ [])
      ∙ ap (λ ks. ks ++ (norm ∷ [])) (keys-erase_writes norm b.writes) in
    rw e (record {
      writes_once = rw k (
          Distinct-append norm (erase_removes norm (keys b.writes))
            (Distinct-erase_removes norm (keys b.writes) t.writes_once)
            (erased norm (keys b.writes)));
      removes_once = Distinct-erase_removes norm b.removes t.removes_once;
      apart = λ q.
          rw
            (
              k,
              any-append q (erase_removes norm (keys b.writes)) (norm ∷ []),
              any-erase_removes q norm (keys b.writes),
              any-erase_removes q norm b.removes,
            )
            (ground (arith, t.apart q));
    })

-- Staging a removal keeps the lists of the batch tidy.
pub remove-IsTidy :
    (b : Batch) (path : Str) {b' : Batch} {norm : Str}
    → normalize path ≡ ok norm
    → remove b path ≡ ok b'
    → IsTidy b
    → IsTidy b'
remove-IsTidy b path {b'} {norm} n h t =
    let (open_, e) = remove-inv b path n h in
    let k = keys-erase_writes norm b.writes in
    rw e (record {
      writes_once = rw k (Distinct-erase_removes norm (keys b.writes) t.writes_once);
      removes_once =
          Distinct-add (any (λ r. str_eq r norm) b.removes) norm b.removes refl t.removes_once;
      apart = λ q.
          rw (k, any-erase_removes q norm (keys b.writes), any-add q norm b.removes)
            (ground (arith, t.apart q));
    })
