-- ===== src/Command.antt =====
-- crates/scll-core/src/command/mod.rs: the framer that all command builders share. A `Capdu` is the
-- list of what its vector of 261 octets holds, and a builder returns it or a `BuildError`. The
-- builders stand in `Builders`, `Install` and `PutKey`; `Apdu` is the card's view of a command.
pub mod Apdu
pub mod Frame
pub mod Builders
pub mod Install
pub mod PutKey
use scll_rust.Prelude.{
  ℕ, List, [], ◌∷◌, Bool, length, is_empty, if◌then◌else◌, Result, ok, err, stuck, ◌>>=◌, ok_or,
}
use scll_rust.Prelude.Bits.{u8_try_from}
use scll_rust.Prelude.Heapless.{Heapless}

pub data BuildError : Type 0 where
  overflow empty_key_scope : BuildError

-- limits.rs, `CAPDU_MAX`
abbrev pub capdu_max : ℕ
capdu_max = 261

module _ ⦃hl : Heapless⦄ where
  unfoldable pub push : List ℕ → List ℕ → Result BuildError (List ℕ)
  push out src = ok_or (hl.extend capdu_max out src) overflow

  unfoldable pub push_lv : List ℕ → List ℕ → Result BuildError (List ℕ)
  push_lv out bytes = do
    len ← ok_or (u8_try_from (length bytes)) overflow
    out' ← push out (len ∷ [])
    push out' bytes

  -- The `if !data.is_empty()` part of `build`.
  unfoldable pub push_body : List ℕ → List ℕ → Result BuildError (List ℕ)
  push_body apdu body = if is_empty body then ok apdu else do
    lc ← ok_or (u8_try_from (length body)) overflow
    apdu' ← push apdu (lc ∷ [])
    push apdu' body

  unfoldable pub build : ℕ → ℕ → ℕ → ℕ → List ℕ → Bool → Result BuildError (List ℕ)
  build cla ins p1 p2 body le = do
    apdu ← push [] (cla ∷ ins ∷ p1 ∷ p2 ∷ [])
    apdu' ← push_body apdu body
    if le then push apdu' (0x00 ∷ []) else ok apdu'
