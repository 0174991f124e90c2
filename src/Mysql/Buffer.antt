-- ===== src/Mysql/Buffer.antt =====
-- mysql/buffer.go: the buffer between a connection and its socket.
-- The slices of `dbuf` and the one that `buf` refers to are the contents of `background` and the
-- place `active`: `buf` is one of the two of `dbuf`, or a slice of its own. The capacity of a slice
-- is its length. A deadline that cannot be set counts as a read that fails.
pub mod Filling
pub mod Refine
pub mod Flip
mod Runs
use dbrwproxy.Prelude.{
  ℕ, zero, suc, ◌+◌, ◌-◌, ◌*◌, ◌/◌, ◌%◌, ◌^◌, Bytes, List, [], ◌∷◌, ◌++◌, Bool, true, false, not,
  ◌&&◌, Option, none, some, ltb, leb, ◌==◌, if◌then◌else◌, length, drop, take, replicate,
}

-- What the next `Read` of the socket finds: bytes, of which it takes what there is room for, bytes
-- with the end behind them, or an error.
pub data Arrival : Type 0 where
  got : Bytes → Arrival
  ended : Bytes → Arrival
  failing : Arrival

pub data Place : Type 0 where
  first second own : Place

pub record Buffer : Type 0 where
  pub dbuf0 : Bytes
  pub dbuf1 : Bytes
  pub own_slice : Bytes
  pub active : Place
  pub idx : ℕ
  pub held : ℕ
  pub flipcnt : ℕ

abbrev pub slice_of : Buffer → Place → Bytes
slice_of b first = b.dbuf0
slice_of b second = b.dbuf1
slice_of b own = b.own_slice

-- b.buf
abbrev pub buf : Buffer → Bytes
buf b = slice_of b b.active

unfoldable pub zeros : ℕ → Bytes
zeros n = replicate n 0

-- `newBuffer`
unfoldable pub new_buffer : Buffer
unfolding zeros
new_buffer = record {
  dbuf0 = zeros 4096;
  dbuf1 = [];
  own_slice = [];
  active = first;
  idx = 0;
  held = 0;
  flipcnt = 0;
}

-- `flip`
unfoldable pub flip : Buffer → Buffer
flip b = record b { flipcnt = (b.flipcnt + 1) % 2 ^ 64 }

-- The place of b.dbuf[b.flipcnt&1]
abbrev pub target : Buffer → Place
target b = if b.flipcnt % 2 == 0 then first else second

-- copy(mem[n:], bytes), for bytes that fit.
unfoldable pub write_at : ℕ → Bytes → Bytes → Bytes
write_at n bytes mem = take n mem ++ bytes ++ drop (n + length bytes) mem

-- b.buf = dest, which stands at a place with these contents.
unfoldable pub install : Place → Bytes → Buffer → Buffer
install first mem b = record b { dbuf0 = mem; active = first; idx = 0 }
install second mem b = record b { dbuf1 = mem; active = second; idx = 0 }
install own mem b = record b { own_slice = mem; active = own; idx = 0 }

-- dest, grown to the next multiple of `defaultBufSize` where it is too small.
unfoldable pub grown : ℕ → Bytes → Bytes
unfolding zeros
grown need dest = if ltb (length dest) need then zeros ((need / 4096 + 1) * 4096) else dest

-- A slice beyond `maxCachedBufSize` does not become part of `dbuf`.
unfoldable pub place_for : ℕ → Buffer → Place
unfolding grown
place_for need b =
    let dest = slice_of b (target b) in
    if ltb (length dest) need && ltb 262144 (length (grown need dest)) then own else target b

-- The loop of `fill`: the contents of the slice and `n` when it returns. `waiting` is a read that
-- never returns, as is a read into no room.
pub data Filled : Type 0 where
  filled : Bytes → ℕ → List Arrival → Filled
  broken : Bytes → Filled
  waiting : Filled

unfoldable pub fill_loop : ℕ → ℕ → Bytes → List Arrival → Filled
unfolding write_at
fill_loop need n mem [] = waiting
fill_loop need n mem (failing ∷ net) = broken mem
fill_loop need n mem (got bytes ∷ net) =
    let room = length mem - n in
    let rest = fill_loop need (n + length bytes) (write_at n bytes mem) net in
    if leb (length bytes) room
    then (if ltb (n + length bytes) need
        then rest
        else filled (write_at n bytes mem) (n + length bytes) net)
    else if ltb (length mem) need
    then waiting
    else filled (write_at n (take room bytes) mem) (length mem) (got (drop room bytes) ∷ net)
fill_loop need n mem (ended bytes ∷ net) =
    let room = length mem - n in
    if leb (length bytes) room
    then (if ltb (n + length bytes) need
        then broken (write_at n bytes mem)
        else filled (write_at n bytes mem) (n + length bytes) (ended [] ∷ []))
    else if ltb (length mem) need
    then waiting
    else filled (write_at n (take room bytes) mem) (length mem) (ended (drop room bytes) ∷ [])

-- dest before the loop: copy(dest[:n], b.buf[b.idx:])
unfoldable pub moved : ℕ → Buffer → Bytes
unfolding write_at grown
moved need b = write_at 0 (take b.held (drop b.idx (buf b))) (grown need (slice_of b (target b)))

-- What a call of the buffer comes to: its value and the reads that are left, or an error.
pub data Fetched (A : Type 0) : Type 0 where
  fetched : A → Buffer → List Arrival → Fetched A
  failed : Buffer → Fetched A
  blocked : Fetched A

-- Behind the loop: b.length changes where it succeeds only.
unfoldable pub after_fill : ℕ → Buffer → Filled → Fetched (Unit {0})
unfolding place_for install
after_fill need b (filled mem n net) =
    fetched tt (record (install (place_for need b) mem b) { held = n }) net
after_fill need b (broken mem) = failed (install (place_for need b) mem b)
after_fill need b waiting = blocked

-- `fill`
unfoldable pub fill : ℕ → Buffer → List Arrival → Fetched (Unit {0})
unfolding after_fill fill_loop moved
fill need b net = after_fill need b (fill_loop need b.held (moved need b) net)

-- b.buf[offset:b.idx], behind the change of both indices.
unfoldable pub advance : ℕ → Buffer → List Arrival → Fetched Bytes
advance need b net =
    fetched (take need (drop b.idx (buf b))) (record b { idx = b.idx + need; held = b.held - need })
      net

after_refill : ℕ → Fetched (Unit {0}) → Fetched Bytes
unfolding advance
after_refill need (fetched _ b net) = advance need b net
after_refill need (failed b) = failed b
after_refill need blocked = blocked

-- `readNext`
unfoldable pub read_next : ℕ → Buffer → List Arrival → Fetched Bytes
unfolding fill advance after_refill
read_next need b net =
    if ltb b.held need then after_refill need (fill need b net) else advance need b net

-- `takeBuffer`, for writing: `none` is ErrBusyBuffer.
unfoldable pub take_buffer : ℕ → Buffer → Option (Bytes × Buffer)
unfolding zeros
take_buffer n b =
    if ltb 0 b.held
    then none
    else if leb n (length (buf b))
    then some (take n (buf b), b)
    else if ltb n 16777215
    then some (zeros n, record b { own_slice = zeros n; active = own })
    else some (zeros n, b)

-- `takeSmallBuffer`: beyond the length the slice expression panics, which no caller reaches.
unfoldable pub take_small_buffer : ℕ → Buffer → Option Bytes
take_small_buffer n b = if ltb 0 b.held then none else some (take n (buf b))

-- `takeCompleteBuffer`
unfoldable pub take_complete_buffer : Buffer → Option Bytes
take_complete_buffer b = if ltb 0 b.held then none else some (buf b)

-- `store`
unfoldable pub store : Bytes → Buffer → Option Buffer
store bytes b =
    if ltb 0 b.held
    then none
    else if leb (length bytes) 16777215 && ltb (length (buf b)) (length bytes)
    then some (record b { own_slice = bytes; active = own })
    else some b
