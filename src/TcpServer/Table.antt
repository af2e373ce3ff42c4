-- ===== src/TcpServer/Table.antt =====
-- The table of racey-tcp-server.c as a stack: what `client_fds` and `client_idx` stand for, and
-- what the accesses to them do to it.
use mathlib.Core.Option
use mathlib.Core.Path.{subst}
use racey_suite.Prelude.{
  ℕ, zero, suc, ◌+◌, ◌≤◌, ◌<◌, ◌≡◌, refl, ℤ, pos, negsuc, Option, none, some, List, [], ◌∷◌, length,
  get_elem?, set?, arith, All, replicate, ◌-◌, ◌∙◌, ap, sym,
}
use racey_suite.TcpServer.{up, down, fd_at, put_at, worker_num}

-- The entries of a stack, the last one first, in front of what is left of the array.
abbrev pub pile : List ℤ → List ℤ → List ℤ
pile [] rest = rest
pile (fd ∷ stack) rest = pile stack (fd ∷ rest)

length-pile : (stack rest : List ℤ) → length (pile stack rest) ≡ length stack + length rest
length-pile [] rest = omega arith
length-pile (fd ∷ stack) rest = omega (arith, length-pile stack (fd ∷ rest))

get_elem?-pile :
    (stack rest : List ℤ) (k : ℕ)
    → get_elem? (pile stack rest) (length stack + k) ≡ get_elem? rest k
get_elem?-pile [] rest k = ap (get_elem? rest) (omega arith)
get_elem?-pile (fd ∷ stack) rest k =
    ap (get_elem? (pile stack (fd ∷ rest))) (omega arith) ∙ get_elem?-pile stack (fd ∷ rest) (suc k)

map-map :
    (f g : List ℤ → List ℤ) (o : Option (List ℤ))
    → Option.map f (Option.map g o) ≡ Option.map (λ x. f (g x)) o
map-map f g none = refl
map-map f g (some x) = refl

map-id : (o : Option (List ℤ)) → Option.map (λ x. x) o ≡ o
map-id none = refl
map-id (some x) = refl

set?-pile :
    (stack rest : List ℤ) (k : ℕ) (v : ℤ)
    → set? (pile stack rest) (length stack + k) v ≡ Option.map (pile stack) (set? rest k v)
set?-pile [] rest k v = ap (λ i. set? rest i v) (omega arith) ∙ sym (map-id (set? rest k v))
set?-pile (fd ∷ stack) rest k v =
    ap (λ i. set? (pile stack (fd ∷ rest)) i v) (omega arith)
    ∙ set?-pile stack (fd ∷ rest) (suc k) v
    ∙ map-map (pile stack) (λ xs. fd ∷ xs) (set? rest k v)

-- The index below a number of entries.
abbrev pub index_of : ℕ → ℤ
index_of zero = negsuc 0
index_of (suc n) = pos n

index_of-suc : (m n : ℕ) → m ≡ suc n → index_of m ≡ pos n
index_of-suc m n e = ap index_of e

up-index_of : (n : ℕ) → up (index_of (n + 0)) ≡ index_of (n + 1)
up-index_of zero = refl
up-index_of (suc n) =
    let before : suc n + 0 ≡ suc n = omega arith in
    let after : suc n + 1 ≡ suc (suc n) = omega arith in rw (before, after) refl

down-index_of : (n : ℕ) → down (index_of (n + 1)) ≡ index_of (n + 0)
down-index_of zero = refl
down-index_of (suc n) =
    let before : suc n + 1 ≡ suc (suc n) = omega arith in
    let after : suc n + 0 ≡ suc n = omega arith in rw (before, after) refl

-- `client_fds` holds a stack; `client_idx` is the index of its last entry, or one more while an
-- entry is moved.
pub record Table (fds : List ℤ) (idx : ℤ) (lift : ℕ) (stack : List ℤ) : Type 0 where
  pub rest : List ℤ
  pub shape : fds ≡ pile stack rest
  -- behind the stack, every entry is -1
  pub blank : All (λ fd. fd ≡ negsuc 0) rest
  pub size : length fds ≡ worker_num
  pub index : idx ≡ index_of (length stack + lift)

module _ {fds : List ℤ} {idx : ℤ} where
  pub Table-length :
      {lift : ℕ} {stack : List ℤ} → Table fds idx lift stack → length stack ≤ worker_num
  Table-length {stack = stack} t =
      omega (arith, t.size, ap length t.shape, length-pile stack t.rest)

  -- The index of the last entry, and that behind it.
  top_index :
      {fd : ℤ} {stack : List ℤ} → Table fds idx 0 (fd ∷ stack) → idx ≡ pos (length stack + 0)
  top_index {stack = stack} t =
      t.index ∙ index_of-suc (suc (length stack) + 0) (length stack + 0) (omega arith)

  pub next_index : {stack : List ℤ} → Table fds idx 1 stack → idx ≡ pos (length stack + 0)
  next_index {stack} t = t.index ∙ index_of-suc (length stack + 1) (length stack + 0) (omega arith)

  pub Table-fd_at :
      {fd : ℤ} {stack : List ℤ} → Table fds idx 0 (fd ∷ stack) → fd_at fds idx ≡ some fd
  Table-fd_at {fd} {stack} t = rw (top_index t, t.shape) (get_elem?-pile stack (fd ∷ t.rest) 0)

  pub Table-fd_at-none : Table fds idx 0 [] → fd_at fds idx ≡ none
  Table-fd_at-none t = rw t.index refl

  -- The index goes up in front of a new entry, and down behind a cleared one.
  pub Table-up : {stack : List ℤ} → Table fds idx 0 stack → Table fds (up idx) 1 stack
  Table-up {stack} t = record {
    rest = t.rest;
    shape = t.shape;
    blank = t.blank;
    size = t.size;
    index = ap up t.index ∙ up-index_of (length stack);
  }

  pub Table-down : {stack : List ℤ} → Table fds idx 1 stack → Table fds (down idx) 0 stack
  Table-down {stack} t = record {
    rest = t.rest;
    shape = t.shape;
    blank = t.blank;
    size = t.size;
    index = ap down t.index ∙ down-index_of (length stack);
  }

  -- The last entry is cleared.
  pub Table-clear :
      {fd : ℤ} {stack : List ℤ}
      → Table fds idx 0 (fd ∷ stack)
      → (after : List ℤ) × (put_at fds idx (negsuc 0) ≡ some after) × Table after idx 1 stack
  Table-clear {fd} {stack} t = (
    pile stack (negsuc 0 ∷ t.rest),
    rw (top_index t, t.shape) (set?-pile stack (fd ∷ t.rest) 0 (negsuc 0)),
    record {
      rest = negsuc 0 ∷ t.rest;
      shape = refl;
      blank = (refl, t.blank);
      size = omega (
        arith,
        t.size,
        ap length t.shape,
        length-pile stack (negsuc 0 ∷ t.rest),
        length-pile stack (fd ∷ t.rest),
      );
      index = top_index t ∙ sym (index_of-suc (length stack + 1) (length stack + 0) (omega arith));
    },
  )

  -- An entry is added to a stack that leaves room for it.
  pub Table-place :
      {stack : List ℤ} (v : ℤ)
      → Table fds idx 1 stack
      → length stack < worker_num
      → (after : List ℤ) × (put_at fds idx v ≡ some after) × Table after idx 0 (v ∷ stack)
  Table-place {stack} v t h = place t.rest refl
    where
      place :
          (rest : List ℤ)
          → t.rest ≡ rest
          → (after : List ℤ) × (put_at fds idx v ≡ some after) × Table after idx 0 (v ∷ stack)
      place [] e =
          absurd (omega (arith, t.size, ap length t.shape, length-pile stack t.rest, ap length e))
      place (x ∷ rest) e = (
        pile stack (v ∷ rest),
        rw (next_index t, t.shape, e) (set?-pile stack (x ∷ rest) 0 v),
        record {
          rest = rest;
          shape = refl;
          blank = (subst (All (λ x. x ≡ negsuc 0)) e t.blank).1;
          size = omega (
            arith,
            t.size,
            ap length (t.shape ∙ ap (pile stack) e),
            length-pile stack (v ∷ rest),
            length-pile stack (x ∷ rest),
          );
          index =
              next_index t
              ∙ sym (index_of-suc (suc (length stack) + 0) (length stack + 0) (omega arith));
        },
      )

  -- There is no room behind the tenth.
  pub Table-place_none :
      {stack : List ℤ} (v : ℤ)
      → Table fds idx 1 stack
      → length stack ≡ worker_num
      → put_at fds idx v ≡ none
  Table-place_none {stack} v t h = place t.rest refl
    where
      place : (rest : List ℤ) → t.rest ≡ rest → put_at fds idx v ≡ none
      place [] e = rw (next_index t, t.shape, e) (set?-pile stack [] 0 v)
      place (x ∷ rest) e =
          absurd (omega (arith, t.size, ap length t.shape, length-pile stack t.rest, ap length e))

blank-eq-replicate :
    (rest : List ℤ) (n : ℕ)
    → All (λ fd. fd ≡ negsuc 0) rest
    → length rest ≡ n
    → rest ≡ replicate n (negsuc 0)
blank-eq-replicate [] zero all size = refl
blank-eq-replicate [] (suc n) all size = absurd (omega arith)
blank-eq-replicate (fd ∷ rest) zero all size = absurd (omega (arith, size))
blank-eq-replicate (fd ∷ rest) (suc n) (is, all) size =
    rw (is, blank-eq-replicate rest n all (omega (arith, size))) refl

-- The whole array is given by the stack.
pub Table-array :
    {fds : List ℤ} {idx : ℤ} {stack : List ℤ}
    → Table fds idx 0 stack
    → (fds ≡ pile stack (replicate (worker_num - length stack) (negsuc 0)))
      × (idx ≡ index_of (length stack))
Table-array {stack = stack} t =
    let left : length t.rest ≡ worker_num - length stack =
      omega (arith, t.size, ap length t.shape, length-pile stack t.rest) in
    (
      t.shape ∙ ap (pile stack) (blank-eq-replicate t.rest _ t.blank left),
      t.index ∙ ap index_of (omega arith),
    )
