-- ===== src/Base64.antt =====
-- rbtlib/base64.c: base64_decode.
pub mod Letters
pub mod RoundTrip
mod Tests
use smart_rabbit_server.Base.{
  ℕ, zero, suc, ◌+◌, ◌-◌, ◌*◌, ◌/◌, ◌%◌, Bool, true, false, not, ◌&&◌, Option, none, some, List, [],
  ◌∷◌, ◌++◌, ◌==◌, if◌then◌else◌, get_or, replicate,
}
use smart_rabbit_server.Base.Int.{ℤ, pos, negsuc}

-- `n` values from `i` on.
abbrev pub count_up : ℕ → ℕ → List ℤ
count_up i zero = []
count_up i (suc n) = pos i ∷ count_up (i + 1) n

abbrev pub skipped : ℤ
skipped = negsuc 0

abbrev pub invalid : ℤ
invalid = negsuc 1

abbrev pub base64_pad : ℕ
base64_pad = 61

-- `base64_reverse_table`, by its runs.
abbrev pub base64_reverse_table : List ℤ
base64_reverse_table =
    replicate 9 invalid
    ++ replicate 2 skipped
    ++ replicate 2 invalid
    ++ replicate 1 skipped
    ++ replicate 18 invalid
    ++ replicate 1 skipped
    ++ replicate 10 invalid
    ++ count_up 62 1
    ++ replicate 3 invalid
    ++ count_up 63 1
    ++ count_up 52 10
    ++ replicate 7 invalid
    ++ count_up 0 26
    ++ replicate 6 invalid
    ++ count_up 26 26
    ++ replicate 133 invalid

-- `i`, the bytes `result[0 .. j)`, and `result[j]`.
pub record State : Type 0 where
  pub i : ℕ
  pub result : List ℕ
  pub last : ℕ

abbrev pub init_state : State
init_state = record { i = 0; result = []; last = 0 }

-- The `switch` on `i % 4`. The bits that `|=` sets are clear, so it adds them.
abbrev pub switch : ℕ → ℕ → State → State
switch zero ch s = record s { last = ch * 4 % 256 }
switch (suc zero) ch s = record s {
  result = s.result ++ ((s.last + ch / 16) ∷ []);
  last = ch % 16 * 16;
}
switch (suc (suc zero)) ch s = record s {
  result = s.result ++ ((s.last + ch / 4) ∷ []);
  last = ch % 4 * 64;
}
switch (suc (suc (suc r))) ch s = record s { result = s.result ++ ((s.last + ch) ∷ []) }

abbrev pub put : ℕ → State → State
put ch s = let t = switch (s.i % 4) ch s in record t { i = s.i + 1 }

-- `*current`; the text ends in a zero.
abbrev pub peek : List ℕ → ℕ
peek [] = 0
peek (c ∷ cs) = c

-- One round of the loop; `none` is the return of `NULL`. A negative entry of the table is skipped, for the
-- test for -2 comes after the one for all negative entries.
unfoldable pub step : ℕ → ℕ → State → Option State
step c next s =
    let failed = not (next == base64_pad) && s.i % 4 == 1 in
    let other : State = elim (get_or base64_reverse_table c invalid) [
      | pos ch ↦ put ch s
      | negsuc m ↦ s
    ] in
    if c == base64_pad then if failed then none else some s else some other

-- The loop: the state and `ch` when it ends.
unfoldable pub decode_loop : List ℕ → ℕ → State → Option (State × ℕ)
decode_loop [] length s = some (s, 0)
decode_loop (c ∷ cs) length s =
    let rest : Option (State × ℕ) = elim (step c (peek cs) s) [
      | none ↦ none
      | some t ↦ decode_loop cs (length - 1) t
    ] in
    if c == 0 then some (s, 0) else if length == 0 then some (s, c) else rest

-- `base64_decode`: the bytes of the result, whose number is `*ret_length`.
unfoldable pub base64_decode : List ℕ → ℕ → Option (List ℕ)
base64_decode str length = elim (decode_loop str length init_state) [
  | none ↦ none
  | some r ↦ if r.1 == base64_pad && r.0.i % 4 == 1 then none else some r.0.result
]
