-- ===== src/Rpc/Batches.antt =====
-- rpc.go: the batches of a list, the elements of a batch that succeeds, and the steps of a session.
use sentio_portfolio.Common.{
  ℕ, zero, suc, ◌+◌, ◌≤◌, ◌≡◌, refl, sym, ap, ◌∙◌, subst, if◌then◌else◌, true, false, inl, inr,
  List, [], ◌∷◌, ◌++◌, Option, none, some, length, take, drop, take-append-drop, Each, Each-append,
  flatten, Bool-cases, Outcome, ok, err, panic, ok_injective, arith,
}
use sentio_portfolio.Rpc.{RpcError, batch_element, retryable_rpc_error, Observations, Session}
use sentio_portfolio.Rpc.Reads.{
  Bytes, Request, Reply, ReadError, answer, refusal, Node, replies, raw_results, tolerated, prepend,
  both, wrap, follow, unless_failed,
}
use sentio_portfolio.Rpc.Calls.{batch_size, batches, in_batches, or_missing}

pub prepend-ok :
    {E A : Type 0} (x : A) (rest : Outcome E (List A)) {all : List A}
    → prepend x rest ≡ ok all
    → (xs : List A) × (rest ≡ ok xs) × (all ≡ x ∷ xs)
prepend-ok x (ok xs) e = (xs, refl, sym (ok_injective e))
prepend-ok x (err reason) e = cc
prepend-ok x panic e = cc

pub both-ok :
    {E A : Type 0} (first : Outcome E A) (rest : Outcome E (List A)) {all : List A}
    → both first rest ≡ ok all
    → (x : A) × (xs : List A) × (first ≡ ok x) × (rest ≡ ok xs) × (all ≡ x ∷ xs)
both-ok (ok x) rest e = let (xs, same, whole) = prepend-ok x rest e in (x, xs, refl, same, whole)
both-ok (err reason) rest e = cc
both-ok panic rest e = cc

pub wrap-ok :
    {E F A : Type 0} (f : E → F) (result : Outcome E A) {a : A}
    → wrap f result ≡ ok a
    → result ≡ ok a
wrap-ok f (ok a) e = ap ok (ok_injective e)
wrap-ok f (err reason) e = cc
wrap-ok f panic e = cc

pub or_missing-ok :
    {A B : Type 0} (reason : ReadError) (f : A → B) (found : Option A) {b : B}
    → or_missing reason f found ≡ ok b
    → (a : A) × (found ≡ some a) × (b ≡ f a)
or_missing-ok reason f none e = cc
or_missing-ok reason f (some a) e = (a, refl, sym (ok_injective e))

pub unless_failed-ok :
    {A : Type 0} (reason : Option RpcError) (result : Outcome RpcError A) {a : A}
    → unless_failed reason result ≡ ok a
    → result ≡ ok a
unless_failed-ok none result e = e
unless_failed-ok (some reason) result e = cc

-- Both steps of a session that ends well.
pub follow-ok :
    {E A B : Type 0} (first : Outcome E A × Observations) (next : A → Session E B) {b : B}
    → (follow first next).0 ≡ ok b
    → (a : A) × (first.0 ≡ ok a) × ((next a first.1).0 ≡ ok b)
follow-ok (ok a, observed) next e = (a, refl, e)
follow-ok (err reason, observed) next e = cc
follow-ok (panic, observed) next e = cc

pub in_batches-Each :
    {A B : Type 0} (R : A → B → Type 0) (read : ℕ → List A → Session ReadError (List B))
    → ((start : ℕ) (batch : List A) (observed : Observations) (found : List B)
        → (read start batch observed).0 ≡ ok found
        → Each R batch found)
    → (start : ℕ) (bs : List (List A)) (observed : Observations) {found : List B}
    → (in_batches read start bs observed).0 ≡ ok found
    → Each R (flatten bs) found
unfolding in_batches
in_batches-Each R read sound start [] observed e = subst (Each R []) (ok_injective e) tt
in_batches-Each R read sound start (batch ∷ rest) observed e =
    let (first, is_first, e1) = follow-ok (read start batch observed) _ e in
    let (later, is_later, e2) =
      follow-ok (in_batches read (start + batch_size) rest (read start batch observed).1) _ e1 in
    subst (Each R (batch ++ flatten rest)) (ok_injective e2) (
      Each-append R batch first (flatten rest) later (sound start batch observed first is_first)
        (in_batches-Each R read sound (start + batch_size) rest _ is_later))

length-drop_le :
    {A : Type 0} (n : ℕ) (x : A) (xs : List A) → length (drop (suc n) (x ∷ xs)) ≤ length xs
length-drop_le zero x xs = omega arith
length-drop_le (suc n) x [] = omega arith
length-drop_le (suc n) x (y ∷ xs) = omega (arith, length-drop_le n y xs)

-- Nothing is lost between the batches when their number is enough.
pub flatten-batches :
    {A : Type 0} (left : ℕ) (xs : List A) → length xs ≤ left → flatten (batches left xs) ≡ xs
unfolding batches
flatten-batches zero [] h = refl
flatten-batches zero (x ∷ xs) h = absurd (omega (arith, h))
flatten-batches (suc left) [] h = refl
flatten-batches (suc left) (x ∷ xs) h =
    ap (λ rest. take batch_size (x ∷ xs) ++ rest)
      (flatten-batches left (drop batch_size (x ∷ xs)) (omega (arith, h, length-drop_le 15 x xs)))
    ∙ take-append-drop batch_size (x ∷ xs)

raw_results-step :
    (i : ℕ) (reply : Reply) (rest : List Reply) {raws : List Bytes}
    → raw_results i (reply ∷ rest) ≡ ok raws
    → (raw : Bytes) × (later : List Bytes) × (reply ≡ answer raw)
      × (raw_results (suc i) rest ≡ ok later)
      × (raws ≡ raw ∷ later)
unfolding raw_results
raw_results-step i (answer raw) rest e =
    let (later, same, all) = prepend-ok raw (raw_results (suc i) rest) e in
    (raw, later, refl, same, all)
raw_results-step i (refusal reason) rest e = cc

-- A reply that a batch may carry.
abbrev pub Tolerable : Reply → Type 0
Tolerable reply = (reason : RpcError) → reply ≡ refusal reason → retryable_rpc_error reason ≡ false

refusal_injective : {a b : RpcError} → refusal a ≡ refusal b → a ≡ b
refusal_injective e = cc

tolerated-step :
    (i : ℕ) (reply : Reply) (rest : List Reply) {all : List Reply}
    → tolerated i (reply ∷ rest) ≡ ok all
    → (later : List Reply) × Tolerable reply
      × (tolerated (suc i) rest ≡ ok later)
      × (all ≡ reply ∷ later)
unfolding tolerated
tolerated-step i (answer raw) rest e =
    let (later, same, whole) = prepend-ok (answer raw) (tolerated (suc i) rest) e in
    (later, (λ reason no_refusal. cc), same, whole)
tolerated-step i (refusal reason) rest {all} e = elim (Bool-cases (retryable_rpc_error reason)) [
  | inl retry ↦ absurd (retried retry e)
  | inr no_retry ↦ kept no_retry e
]
  where
    retried :
        retryable_rpc_error reason ≡ true
        → (if retryable_rpc_error reason
            then err (batch_element i reason)
            else prepend (refusal reason) (tolerated (suc i) rest))
          ≡ ok all
        → ⊥
    retried retry = rw retry λ e. cc

    kept :
        retryable_rpc_error reason ≡ false
        → (if retryable_rpc_error reason
            then err (batch_element i reason)
            else prepend (refusal reason) (tolerated (suc i) rest))
          ≡ ok all
        → (later : List Reply) × Tolerable (refusal reason)
          × (tolerated (suc i) rest ≡ ok later)
          × (all ≡ refusal reason ∷ later)
    kept no_retry = rw no_retry λ e.
        let (later, same, whole) = prepend-ok (refusal reason) (tolerated (suc i) rest) e in
        (
          later,
          (λ other f. ap retryable_rpc_error (sym (refusal_injective f)) ∙ no_retry),
          same,
          whole,
        )

module _ {Log : Type 0} (node : Node Log) where
  -- The node answered a request of a batch with these bytes.
  abbrev pub Answered : Request → Bytes → Type 0
  Answered r raw = (place : ℕ) × (trip : ℕ) × (node.element place r trip ≡ answer raw)

  -- The node gave this reply to a request of a batch, and it is no retryable error.
  abbrev pub Replied : Request → Reply → Type 0
  Replied r reply = (place : ℕ) × (trip : ℕ) × (node.element place r trip ≡ reply) × Tolerable reply

  pub raw_results-Answered :
      (i j : ℕ) (rs : List Request) (trip : ℕ) {raws : List Bytes}
      → raw_results i (replies node j rs trip) ≡ ok raws
      → Each Answered rs raws
  unfolding raw_results
  raw_results-Answered i j [] trip e = subst (Each Answered []) (ok_injective e) tt
  raw_results-Answered i j (r ∷ rs) trip e =
      let (raw, later, same, rest, all) = raw_results-step i (node.element j r trip) _ e in
      subst (Each Answered (r ∷ rs)) (sym all)
        ((j, trip, same), raw_results-Answered (suc i) (suc j) rs trip rest)

  pub tolerated-Replied :
      (i j : ℕ) (rs : List Request) (trip : ℕ) {all : List Reply}
      → tolerated i (replies node j rs trip) ≡ ok all
      → Each Replied rs all
  unfolding tolerated
  tolerated-Replied i j [] trip e = subst (Each Replied []) (ok_injective e) tt
  tolerated-Replied i j (r ∷ rs) trip e =
      let (later, tolerable, rest, whole) = tolerated-step i (node.element j r trip) _ e in
      subst (Each Replied (r ∷ rs)) (sym whole)
        ((j, trip, refl, tolerable), tolerated-Replied (suc i) (suc j) rs trip rest)
