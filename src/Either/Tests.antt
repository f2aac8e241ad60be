-- ===== src/Either/Tests.antt =====
-- Two types, and a move between objects of either.
use portable_concurrency.Prelude.{ℕ, ◌≡◌, arith}
use portable_concurrency.Store.{done, thrown, err, user}
use portable_concurrency.Either.{emplace, move_assign}
use portable_concurrency.Either.Content.{
  nothing, item, represent, emplace_replaces, move_assign_moves,
}

emplace_replaces_example :
    emplace {A = ℕ} 2 1 (err (user 5)) (represent (item 1 7) 3)
    ≡ (thrown (user 5), represent nothing 4)
emplace_replaces_example = emplace_replaces 2 0 (item 1 7) 3 (err (user 5)) (omega arith)

move_assign_moves_example :
    move_assign {A = ℕ} (λ _. 0) 2 (represent (item 0 4) 1, represent (item 1 7) 3)
    ≡ (done tt, (represent (item 1 7) 2, represent nothing 4))
move_assign_moves_example =
    move_assign_moves (λ _. 0) 2 (item 0 4) (item 1 7) 1 3 (omega arith) (omega arith)
