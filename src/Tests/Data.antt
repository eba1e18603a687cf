-- ===== src/Tests/Data.antt =====
-- Inputs that the tests share: a comparison of bytes, an environment, keys, messages and a world.
use bit_chat.Prelude.{
  ℕ, ◌≡◌, ◌↔◌, refl, Bool, true, false, ◌&&◌, List, [], ◌∷◌, arith, ◌==◌, replicate,
}
use bit_chat.Status.{Env, IsAmple}
use bit_chat.Sodium.{Memcmp}
use bit_chat.Message.{Message, IsMessage}

unfoldable pub bytes_eq : List ℕ → List ℕ → Bool
bytes_eq [] [] = true
bytes_eq (x ∷ xs) (y ∷ ys) = (x == y) && bytes_eq xs ys
bytes_eq _ _ = false

bytes_eq_sound : (a b : List ℕ) → bytes_eq a b ≡ true → a ≡ b
unfolding bytes_eq
bytes_eq_sound [] [] h = refl
bytes_eq_sound (x ∷ xs) (y ∷ ys) h = ground (arith, bytes_eq_sound xs ys)
bytes_eq_sound [] (y ∷ ys) h = cc
bytes_eq_sound (x ∷ xs) [] h = cc

bytes_eq_refl : (a : List ℕ) → bytes_eq a a ≡ true
unfolding bytes_eq
bytes_eq_refl [] = refl
bytes_eq_refl (x ∷ xs) = ground (arith, bytes_eq_refl xs)

pub bytes_eq_iff : (a b : List ℕ) → (bytes_eq a b ≡ true) ↔ (a ≡ b)
bytes_eq_iff a b = (bytes_eq_sound a b, λ e. rw e (bytes_eq_refl b))

instance unfoldable pub memcmp : Memcmp
unfolding bytes_eq
memcmp = record { same = bytes_eq; same_iff = bytes_eq_iff }

abbrev pub sample_env : Env
sample_env = record { now = 1000; alloc = λ r. true; random = λ n. replicate n 5 }

abbrev pub later_env : Env
later_env = record { now = 5000; alloc = λ r. true; random = λ n. replicate n 6 }

pub sample_env-IsAmple : IsAmple sample_env
sample_env-IsAmple = record { granted = λ r. refl }

pub later_env-IsAmple : IsAmple later_env
later_env-IsAmple = record { granted = λ r. refl }

abbrev pub alice : List ℕ
alice = replicate 32 1

abbrev pub bob : List ℕ
bob = replicate 32 2

abbrev pub carol : List ℕ
carol = replicate 32 3

-- A message from Alice to Bob with two bytes of payload.
abbrev pub hello : Message
hello = record {
  uuid = replicate 16 7;
  ttl = 10;
  sender_pubkey = alice;
  receiver_pubkey = bob;
  timestamp = 1000;
  payload = 104 ∷ 105 ∷ [];
}

pub hello-IsMessage : IsMessage hello
hello-IsMessage = omega arith
