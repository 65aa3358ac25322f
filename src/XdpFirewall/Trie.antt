-- ===== src/XdpFirewall/Trie.antt =====
-- The kernel's longest-prefix-match trie: not code of the repository, so an interface with its
-- documented behaviour. A key is a count of bits and bytes, read from the highest bit on.
use rust_samples.Prelude.{
  ℕ, ◌/◌, ◌%◌, ◌≡◌, Bool, false, ◌&&◌, ◌||◌, List, [], ◌∷◌, ◌++◌, Option, some, leb, list_eq, take,
}
use rust_samples.XdpFirewall.{IpKey}

abbrev pub byte_bits : ℕ → List ℕ
byte_bits b =
    b / 128 % 2
    ∷ b / 64 % 2
    ∷ b / 32 % 2
    ∷ b / 16 % 2
    ∷ b / 8 % 2
    ∷ b / 4 % 2
    ∷ b / 2 % 2
    ∷ b % 2
    ∷ []

abbrev pub bits : List ℕ → List ℕ
bits [] = []
bits (b ∷ bs) = byte_bits b ++ bits bs

-- The bytes of a key after its length.
abbrev pub key_data : IpKey → List ℕ
key_data k = k.ip_type ∷ k.addr

-- An entry covers a key that is as long at least and agrees with it on the entry's bits.
abbrev pub covers : IpKey → IpKey → Bool
covers entry key =
    leb entry.prefixlen key.prefixlen
    && list_eq (take entry.prefixlen (bits (key_data entry)))
        (take entry.prefixlen (bits (key_data key)))

pub record LpmTrie : Type 1 where
  pub State : Type 0
  -- Whether a lookup finds an entry.
  pub hit : State → IpKey → Bool
  -- `none` is an error: the trie is full, say.
  pub put : IpKey → State → Option State
  pub hit-put :
      (entry key : IpKey) (s s' : State)
      → put entry s ≡ some s'
      → hit s' key ≡ (covers entry key || hit s key)

-- A list of entries meets the interface.
abbrev pub any_covers : List IpKey → IpKey → Bool
any_covers [] key = false
any_covers (e ∷ es) key = covers e key || any_covers es key

pub any_covers-put :
    (entry key : IpKey) (s s' : List IpKey)
    → some (entry ∷ s) ≡ some s'
    → any_covers s' key ≡ (covers entry key || any_covers s key)
any_covers-put entry key s s' h = cc

abbrev pub list_trie : LpmTrie
list_trie = record {
  State = List IpKey;
  hit = any_covers;
  put = λ entry s. some (entry ∷ s);
  hit-put = any_covers-put;
}
