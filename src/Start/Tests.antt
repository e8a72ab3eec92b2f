-- ===== src/Start/Tests.antt =====
-- The theorem on `main` at a concrete system.
use leo_net.Base.{ℕ, ◌<◌, ◌≤◌, ◌⊎◌, ◌+◌, ◌≡◌, refl, none, some, arith}
use leo_net.Base.Lists.{length, replicate, length-replicate}
use leo_net.Service.{Libevent}
use leo_net.Start.{System, Memory, Started, main}
use leo_net.Start.Claims.{Allocates, Ready, main_lem}

-- An event is its number, a base the next number.
abbrev numbering : Libevent ℕ
numbering = record {
  event_new = λ fd events next. (some next, next + 1);
  event_add = λ e next. next;
  event_del = λ e next. next;
}

abbrev zeroes : Memory
zeroes = record {
  new_char = λ i n. replicate n 0;
  new_char' = λ i n. replicate n 0;
  crypt = λ i. record {
    sequence_id = 0;
    session_key = 0;
    xor_key = replicate 17 0;
    swap_key = replicate 5 0;
  };
  read_queue = λ i. record { queue = replicate 128 none; push_index = 0; pop_index = 0 };
  write_queue = λ i. record { queue = replicate 128 none; push_index = 0; pop_index = 0 };
}

zeroes-Allocates : Allocates zeroes
zeroes-Allocates = record {
  reads = λ i n. length-replicate {A = ℕ} n 0;
  writes = λ i n. length-replicate {A = ℕ} n 0;
}

abbrev listening : System ℕ
listening = record { listen_fd = 3; bound = 0; listening = 0; eb = some 1 }

abbrev rand : ℕ → ℕ
rand calls = 7 + calls

main_lem_example :
    ((length {A = ℕ} (replicate 255 0) < 256)
      × (main numbering rand zeroes listening (replicate 4352 0) (replicate 255 0) ≡ none))
    ⊎ ((256 ≤ length {A = ℕ} (replicate 255 0))
        × ((st : Started ℕ) × (main numbering rand zeroes listening
                (replicate 4352 0)
                (replicate 255 0)
              ≡ some (some st))
            × Ready numbering listening 1 1 st))
main_lem_example =
    main_lem numbering rand zeroes listening (replicate 4352 0) (replicate 255 0)
      (length-replicate {A = ℕ} 4352 0) refl (omega arith) (omega arith) zeroes-Allocates 1 1 refl
      refl
