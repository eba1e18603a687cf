-- ===== src/Cli/Loop.antt =====
-- src/cli/main.c: the input loop and the tick thread, as events in the order in which they take
-- effect; a call is over before the next event. A line is the buffer after `fgets`.
use Prim.Native.Char.{code}
use Prim.Native.String.{String}
use bit_chat.Prelude.{
  ℕ, Bool, true, false, ◌&&◌, Option, some, List, [], ◌∷◌, ◌==◌, if◌then◌else◌, length, drop,
}
use bit_chat.Status.{Env, Run, returned, ◌>>=◌}
use bit_chat.Sodium.{Sodium, Memcmp}
use bit_chat.Identity.{Identity}
use bit_chat.Identity as Identity
use bit_chat.Port.{destroy_storage, destroy_transport}
use bit_chat.Udp.{Udp}
use bit_chat.Router.{Router, World}
use bit_chat.Router.Tick.{tick_router}
use bit_chat.Cli.Command.{
  Cli, Terminal, c_string, printed, unknown_command, cmd_info, cmd_peers, cmd_msg,
}

-- The characters of a literal.
abbrev pub codes : String → List ℕ
codes String.[] = []
codes (String.◌∷◌ c s) = code c ∷ codes s

-- `strncmp(line, prefix, strlen(prefix)) == 0`
abbrev pub starts_with : List ℕ → List ℕ → Bool
starts_with [] line = true
starts_with (c ∷ cs) [] = false
starts_with (c ∷ cs) (d ∷ ds) = (c == d) && starts_with cs ds

-- `strcmp(line, text) == 0`
abbrev pub is_text : List ℕ → List ℕ → Bool
is_text text line = (length line == length text) && starts_with text line

-- The line without a newline at its end.
unfoldable pub strip_newline : List ℕ → List ℕ
strip_newline [] = []
strip_newline (c ∷ []) = if c == 10 then [] else c ∷ []
strip_newline (c ∷ (d ∷ ds)) = c ∷ strip_newline (d ∷ ds)

-- What happens while the program runs. After the end of the input only ticks and signals are left.
pub data Event : Type 0 where
  typed : Env → List ℕ → Event
  tick : ℕ → Env → Event
  signal : Event

module _ {D K : Type 0} where
  -- The chain of comparisons of the input loop.
  unfoldable pub dispatch : Sodium → Env → Cli D K → List ℕ → Cli D K
  dispatch sodium env c line =
      if length line == 0
      then c
      else if is_text (codes "/info") line
      then cmd_info c
      else if is_text (codes "/peers") line
      then cmd_peers c
      else if starts_with (codes "/msg ") line
      then cmd_msg sodium env c (drop 5 line)
      else if is_text (codes "/quit") line
      then record c { is_running = false }
      else printed c unknown_command

  abbrev pub ticked : Cli D K → Router D (Udp K) Terminal × World D (Udp K) Terminal → Cli D K
  ticked c (r, w) = record c { router = r; world = w }

  module _ ⦃mem : Memcmp⦄ where
    -- One event: a round of the input loop, one of `tick_thread_func`, or `signal_handler`.
    unfoldable pub step : Sodium → Event → Cli D K → Run (Cli D K)
    step sodium (typed env text) c =
        returned (dispatch sodium env c (strip_newline (c_string text)))
    step sodium (tick fuel env) c =
        tick_router fuel env c.router (record c.world { user = record c.world.user { env = env } })
        >>= λ out. returned (ticked c out)
    step sodium signal c = returned (record c { is_running = false })

    -- The program until it stops, or the events end.
    unfoldable pub run : Sodium → List Event → Cli D K → Run (Cli D K)
    run sodium [] c = returned c
    run sodium (e ∷ es) c =
        let rest = step sodium e c >>= run sodium es in if c.is_running then rest else returned c

-- Step 11 of `main`, once the tick thread is over: the world, with the database and the socket closed,
-- and the identity, wiped. The router is only freed.
unfoldable pub stop : {D K : Type 0} → Cli D K → World D (Udp K) Terminal × Option Identity
stop c =
    let w = c.world in
    (
      record w {
        store = destroy_storage c.router.storage w.store;
        net = destroy_transport c.router.transport w.net;
      },
      Identity.wipe (some w.user.identity),
    )
