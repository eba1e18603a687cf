-- ===== src/Ffi/Locked.antt =====
-- The mutex of src/bridge/bitchat_ffi.c: `bitchat_init` makes it, `bitchat_shutdown` destroys it, and every
-- function of the API but `bitchat_init` locks it first.
use bit_chat.Prelude.{◌≡◌, true}
use bit_chat.Status.{Status}
use bit_chat.Sodium.{Sodium}
use bit_chat.Message.{Message}
use bit_chat.Identity.{Identity}
use bit_chat.Identity as Identity
use bit_chat.Crypto.{nonce_size, tag_size, content, encrypt}
use bit_chat.Crypto as Crypto
use bit_chat.Discovery.{Discovery}
use bit_chat.Router.{Router}
use bit_chat.Router as Router
use bit_chat.Router.Tick as Tick
use bit_chat.Sqlite as Sqlite
use bit_chat.Ffi.{State}
use bit_chat.Ffi.Api as Api
use bit_chat.Ffi.Calls.{Calls}

module _ {D V : Type 0} where
  -- An initialized library has its mutex.
  abbrev HasLock : State D V → Type 0
  HasLock g = g.initialized ≡ true → g.mutex_initialized ≡ true

  -- The flags of one state are those of another.
  abbrev Same : State D V → State D V → Type 0
  Same g g' = (g'.initialized ≡ g.initialized) × (g'.mutex_initialized ≡ g.mutex_initialized)

  abbrev Kept : State D V → Status × State D V → Type 0
  Kept g (rc, g') = Same g g'

  abbrev Locked : Status × State D V → Type 0
  Locked (rc, g') = HasLock g'
