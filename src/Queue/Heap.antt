-- ===== src/Queue/Heap.antt =====
-- The heap entries of src/blockchecks/engine/adaptive_queue.py, and the order that `heapq` keeps.
use native.Mathlib.Nat.{le_trans}
use blockcheck_s.Prelude.{
  if_both, if_split, ℕ, suc, ◌≤◌, Bool, true, false, ◌&&◌, ◌||◌, String, List, [], ◌∷◌, ◌++◌,
  pair_eq, ltb, eqb, ◌==◌, if◌then◌else◌, ◌≡◌, refl, arith,
}
use blockcheck_s.Prelude.Lists.{length, All, All-map}

pub record HeapEntry : Type 0 where
  pub priority : ℕ
  pub seq : ℕ
  pub key : String × String

-- `a < b` of `_HeapEntry`, whose `key` is not compared.
unfoldable pub entry_before : HeapEntry → HeapEntry → Bool
entry_before a b = ltb b.priority a.priority || eqb a.priority b.priority && ltb a.seq b.seq

-- `heapq.heappush`
unfoldable pub push_heap : HeapEntry → List HeapEntry → List HeapEntry
push_heap e [] = e ∷ []
push_heap e (x ∷ xs) = if entry_before e x then e ∷ x ∷ xs else x ∷ push_heap e xs

-- `for e in entries: heapq.heappush(heap, e)`
unfoldable pub push_all : List HeapEntry → List HeapEntry → List HeapEntry
push_all [] heap = heap
push_all (e ∷ es) heap = push_all es (push_heap e heap)

-- Whether some entry stands for the key.
unfoldable pub has_entry : String × String → List HeapEntry → Bool
has_entry k [] = false
has_entry k (e ∷ es) = e.key == k || has_entry k es

pub has_entry-push_heap :
    (k : String × String) (e : HeapEntry) (h : List HeapEntry)
    → has_entry k (push_heap e h) ≡ (e.key == k || has_entry k h)
unfolding has_entry push_heap
has_entry-push_heap k e [] = refl
has_entry-push_heap k e (x ∷ xs) = ground (arith, has_entry-push_heap k e xs)

pub has_entry-push_all :
    (k : String × String) (es h : List HeapEntry)
    → has_entry k (push_all es h) ≡ (has_entry k es || has_entry k h)
unfolding has_entry push_all
has_entry-push_all k [] h = refl
has_entry-push_all k (e ∷ es) h =
    ground (arith, has_entry-push_all k es (push_heap e h), has_entry-push_heap k e h)

pub length-push_heap :
    (e : HeapEntry) (h : List HeapEntry) → length (push_heap e h) ≡ suc (length h)
unfolding push_heap
length-push_heap e [] = refl
length-push_heap e (x ∷ xs) = ground (arith, length-push_heap e xs)

-- No entry of the heap has a greater priority than its first one.
abbrev pub IsTop : ℕ → List HeapEntry → Type 0
IsTop p = All (λ e. e.priority ≤ p)

abbrev pub IsOrdered : List HeapEntry → Type 0
IsOrdered [] = Unit
IsOrdered (e ∷ es) = IsTop e.priority es × IsOrdered es

IsTop-push_heap :
    (p : ℕ) (e : HeapEntry) (h : List HeapEntry)
    → e.priority ≤ p
    → IsTop p h
    → IsTop p (push_heap e h)
unfolding push_heap
IsTop-push_heap p e [] le t = (le, tt)
IsTop-push_heap p e (x ∷ xs) le t =
    if_both (IsTop p) (entry_before e x) (e ∷ x ∷ xs) (x ∷ push_heap e xs) (le, t)
      (t.0, IsTop-push_heap p e xs le t.1)

front-le : (e x : HeapEntry) → entry_before e x ≡ true → x.priority ≤ e.priority
unfolding entry_before
front-le e x h = ground arith

back-le : (e x : HeapEntry) → entry_before e x ≡ false → e.priority ≤ x.priority
unfolding entry_before
back-le e x h = ground arith

pub IsOrdered-push_heap :
    (e : HeapEntry) (h : List HeapEntry) → IsOrdered h → IsOrdered (push_heap e h)
unfolding push_heap
IsOrdered-push_heap e [] o = (tt, tt)
IsOrdered-push_heap e (x ∷ xs) o =
    if_split IsOrdered (entry_before e x) (e ∷ x ∷ xs) (x ∷ push_heap e xs)
      (λ first. (
        (
          front-le e x first,
          All-map (λ y. y.priority ≤ x.priority) (λ y. y.priority ≤ e.priority)
              (λ y h. le_trans h (front-le e x first)) xs o.0,
        ),
        o,
      ))
      (λ later.
        (IsTop-push_heap x.priority e xs (back-le e x later) o.0, IsOrdered-push_heap e xs o.1))

pub IsOrdered-push_all : (es h : List HeapEntry) → IsOrdered h → IsOrdered (push_all es h)
unfolding push_all
IsOrdered-push_all [] h o = o
IsOrdered-push_all (e ∷ es) h o = IsOrdered-push_all es (push_heap e h) (IsOrdered-push_heap e h o)

pub has_entry-append :
    (k : String × String) (xs ys : List HeapEntry)
    → has_entry k (xs ++ ys) ≡ (has_entry k xs || has_entry k ys)
unfolding has_entry
has_entry-append k [] ys = refl
has_entry-append k (x ∷ xs) ys = ground (arith, has_entry-append k xs ys)
