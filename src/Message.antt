-- ===== src/Message.antt =====
-- `net_message` (src/leo_net_message.h): an identifier and a buffer of 1024 bytes that is handed out
-- piece by piece from the front. A pointer into the buffer is its offset.
pub mod Pops
mod Tests
use leo_net.Base.{ℕ, ◌+◌, Bool, Option, none, some, List, ltb, if◌then◌else◌, u16, add32}
use leo_net.Base.Lists.{replicate}

pub record NetMessage : Type 0 where
  pub id : ℕ
  pub real_size : ℕ
  pub buffer : List ℕ

abbrev pub buffer_size : ℕ
buffer_size = 1024

pub new_message : NetMessage
new_message = record { id = 0; real_size = 0; buffer = replicate buffer_size 0 }

abbrev pub get_id : NetMessage → ℕ
get_id m = m.id

abbrev pub get_real_size : NetMessage → ℕ
get_real_size m = m.real_size

abbrev pub get_data : NetMessage → List ℕ
get_data m = m.buffer

pub set_id : NetMessage → ℕ → NetMessage
set_id m id = record m { id = u16 id }

pub set_real_size : NetMessage → ℕ → NetMessage
set_real_size m size = record m { real_size = u16 size }

-- The first argument is `sizeof(t)`, and `none` the null pointer.
pub pop_ptr : ℕ → NetMessage → Option ℕ × NetMessage
pop_ptr sizeof m =
    if ltb (add32 m.real_size sizeof) buffer_size
    then (some m.real_size, record m { real_size = u16 (m.real_size + sizeof) })
    else (none, m)

-- `none` is the end of the body without a `return`, which C++ leaves undefined.
pub pop_ref : ℕ → NetMessage → Option (ℕ × NetMessage)
pop_ref sizeof m =
    if ltb (add32 m.real_size sizeof) buffer_size
    then some (m.real_size, record m { real_size = u16 (m.real_size + sizeof) })
    else none
