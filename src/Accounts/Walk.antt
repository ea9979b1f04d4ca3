-- ===== src/Accounts/Walk.antt =====
-- The loop over the Instadapp list (accounts.go), against the list that the contract declares.
use sentio_portfolio.Common.{
  ℕ, zero, suc, ◌≡◌, ◌≢◌, refl, sym, ap, ◌∙◌, Bool, true, false, none, some, Option, List, [], ◌∷◌,
  arith, ok, Outcome, Bool-cases, length, ◌==◌, ◌||◌, ==_iff, inl, inr, map, >>=-eq-ok,
  fail_if-passed, not, subst,
}
use mathlib.Core.Option.{some-injective}
use sentio_portfolio.Common.Assoc.{contains, nat_key, beq_refl}
use sentio_portfolio.Accounts.{Client, Node, Account, derived, walk, visit, wrong_tail, Error}

abbrev pub the_ok : {A : Type 0} → A → Outcome Error A
the_ok a = ok a

pub ok-injective : {A : Type 0} {a b : A} → (the_ok a) ≡ ok b → a ≡ b
ok-injective h = cc

true_not_false : {b : Bool} → b ≡ true → b ≡ false → ⊥
true_not_false h k = cc

module _ (client : Client) (last : ℕ) where
  -- From the entry `current`, reached from `previous`, the links run through the entries of the addresses, each
  -- pointing back to the one before it, and end after `last`.
  abbrev pub Links : ℕ → ℕ → List ℕ → Type 0
  Links previous current [] = (previous ≡ last) × (current ≡ 0)
  Links previous current (a ∷ xs) =
      (current ≢ 0)
      × ((next : ℕ) × (client.node current
            ≡ some (record { address = a; previous = previous; next = next }))
          × Links current next xs)

  -- Addresses that are not zero, all different, and none of them in `seen`.
  abbrev pub Fresh : List ℕ → List ℕ → Type 0
  Fresh seen [] = Unit
  Fresh seen (a ∷ xs) = (a ≢ 0) × (contains a seen ≡ false) × Fresh (a ∷ seen) xs

  visit_passed :
      (ids seen : List ℕ) (previous current : ℕ) (read : Option Node) (node : Node)
      → visit ids seen previous current read ≡ ok node
      → (current ≢ 0)
        × (read ≡ some node)
        × (node.previous ≡ previous)
        × (node.address ≢ 0)
        × (contains node.address seen ≡ false)
  unfolding visit
  visit_passed ids seen previous current none node h = ground arith
  visit_passed ids seen previous current (some n) node h =
      let same : n ≡ node = ground arith in
      let checks : (current ≢ 0)
          × (n.previous ≡ previous)
          × (n.address ≢ 0)
          × (contains n.address seen ≡ false) =
        ground arith in
      subst
        (λ m.
          (current ≢ 0)
          × (some n ≡ some m)
          × (m.previous ≡ previous)
          × (m.address ≢ 0)
          × (contains m.address seen ≡ false))
        same (checks.0, refl, checks.1, checks.2, checks.3)

  -- A walk that ends well has followed the links of as many fresh addresses as it was to read.
  pub walk_sound :
      (left : ℕ) (ids seen : List ℕ) (previous current : ℕ) (out : List Account)
      → walk client last left ids seen previous current ≡ ok out
      → (xs : List ℕ) × (out ≡ map derived xs)
        × (length xs ≡ left)
        × Links previous current xs
        × Fresh seen xs
  unfolding walk
  walk_sound zero ids seen previous current out h =
      let (tail, done) =
        fail_if-passed (not (previous == last) || not (current == 0)) wrong_tail (the_ok []) h in
      ([], sym (ok-injective done), refl, (ground arith, ground arith), tt)
  walk_sound (suc left) ids seen previous current out h =
      let (node, visited, h1) =
        >>=-eq-ok (visit ids seen previous current (client.node current)) _ h in
      let (rest, went, same) =
        >>=-eq-ok (walk client last left (current ∷ ids) (node.address ∷ seen) current node.next) _
          h1 in
      let (present, found, back, real, other) =
        visit_passed ids seen previous current (client.node current) node visited in
      let (xs, shape, count, links, fresh) =
        walk_sound left (current ∷ ids) (node.address ∷ seen) current node.next rest went in
      (
        node.address ∷ xs,
        sym (ok-injective same) ∙ ap (λ r. derived node.address ∷ r) shape,
        ap suc count,
        (
          present,
          (
            node.next,
            found
                ∙ ap (λ p. some (record { address = node.address; previous = p; next = node.next }))
                    back,
            links,
          ),
        ),
        (real, other, fresh),
      )

  -- Every id that was visited has an entry whose address was seen.
  abbrev pub Visited : List ℕ → List ℕ → Type 0
  Visited ids seen =
      (id : ℕ)
      → contains id ids ≡ true
      → (node : Node) × (client.node id ≡ some node) × (contains node.address seen ≡ true)

  Visited-more :
      (ids seen : List ℕ) (current : ℕ) (node : Node)
      → Visited ids seen
      → client.node current ≡ some node
      → Visited (current ∷ ids) (node.address ∷ seen)
  Visited-more ids seen current node visited found id h = elim (Bool-cases (current == id)) [
    | inl e ↦ (
      node,
      ap client.node (sym ((==_iff current id).0 e)) ∙ found,
      rw (beq_refl node.address) refl,
    )
    | inr ne ↦ (let (n, read, old) = visited id (ground arith) in (n, read, ground arith))
  ]

  -- A fresh address shows that the id is new.
  new_id :
      (ids seen : List ℕ) (current : ℕ) (node : Node)
      → Visited ids seen
      → client.node current ≡ some node
      → contains node.address seen ≡ false
      → contains current ids ≡ false
  new_id ids seen current node visited found fresh = elim (Bool-cases (contains current ids)) [
    | inl again ↦
        (let (n, read, old) = visited current again in
          absurd (
            true_not_false
              (sym (
                  ap (λ (m : Node). contains m.address seen)
                    (some-injective _ _ (sym read ∙ found)))
                ∙ old)
              fresh))
    | inr new ↦ new
  ]

  visit_fresh :
      (ids seen : List ℕ) (current : ℕ) (node : Node)
      → current ≢ 0
      → contains current ids ≡ false
      → node.address ≢ 0
      → contains node.address seen ≡ false
      → visit ids seen node.previous current (some node) ≡ ok node
  unfolding visit
  visit_fresh ids seen current node present new real other = ground arith

  -- The links of fresh addresses are walked to their end.
  pub walk_complete :
      (xs ids seen : List ℕ) (previous current : ℕ)
      → Visited ids seen
      → Links previous current xs
      → Fresh seen xs
      → walk client last (length xs) ids seen previous current ≡ ok (map derived xs)
  unfolding walk
  walk_complete [] ids seen previous current visited links fresh = ground arith
  walk_complete (a ∷ xs) ids seen previous current visited (present, (next, found, links))
        (real, other, fresh) =
      let node : Node = record { address = a; previous = previous; next = next } in
      let new = new_id ids seen current node visited found other in
      rw
        (
          found,
          visit_fresh ids seen current node present new real other,
          walk_complete xs (current ∷ ids) (a ∷ seen) current next
              (Visited-more ids seen current node visited found) links fresh,
        )
        refl
