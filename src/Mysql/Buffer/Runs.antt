-- ===== src/Mysql/Buffer/Runs.antt =====
-- Runs of mysql/buffer.go, and the theorems at inputs.
use dbrwproxy.Prelude.{◌≡◌, refl, [], ◌∷◌, arith}
use dbrwproxy.Mysql.Buffer.{Buffer, got, ended, first, second, fetched, read_next, flip}
use dbrwproxy.Mysql.Buffer.Refine.{Serves, stored, read_next-Serves}
use dbrwproxy.Mysql.Buffer.Flip.{one_more, finished, flip-Reads_kept}

-- Two bytes are held in the middle of a slice of five.
abbrev two_held : Buffer
two_held = record {
  dbuf0 = 1 ∷ 2 ∷ 3 ∷ 4 ∷ 5 ∷ [];
  dbuf1 = 0 ∷ 0 ∷ 0 ∷ 0 ∷ 0 ∷ [];
  own_slice = [];
  active = first;
  idx = 1;
  held = 2;
  flipcnt = 0;
}

-- Three bytes in a read of one and one of four, of which there is room for two.
abbrev four_read : Buffer
four_read = record two_held { dbuf0 = 2 ∷ 3 ∷ 7 ∷ 8 ∷ 9 ∷ []; idx = 4; held = 1 }

moved_and_read :
    read_next 4 two_held (got (7 ∷ []) ∷ got (8 ∷ 9 ∷ 10 ∷ 11 ∷ []) ∷ [])
    ≡ fetched (2 ∷ 3 ∷ 7 ∷ 8 ∷ []) four_read (got (10 ∷ 11 ∷ []) ∷ [])
unfolding read_next
moved_and_read = refl

read_next-Serves_example :
    Serves 4
      (stored two_held (got (7 ∷ []) ∷ ended (8 ∷ []) ∷ []))
      (read_next 4 two_held (got (7 ∷ []) ∷ ended (8 ∷ []) ∷ []))
read_next-Serves_example =
    read_next-Serves 4 two_held (got (7 ∷ []) ∷ ended (8 ∷ []) ∷ []) (omega arith)
      (λ _. omega arith)

-- The slice of five bytes is put into the background, and three bytes are read.
abbrev behind_flip : Buffer
behind_flip = record two_held {
  dbuf1 = 2 ∷ 3 ∷ 7 ∷ 0 ∷ 0 ∷ [];
  active = second;
  idx = 3;
  held = 0;
  flipcnt = 1;
}

flipped_read :
    read_next 3 (flip two_held) (got (7 ∷ []) ∷ []) ≡ fetched (2 ∷ 3 ∷ 7 ∷ []) behind_flip []
unfolding read_next flip
flipped_read = refl

flip-Reads_kept_example : behind_flip.dbuf0 ≡ two_held.dbuf0
flip-Reads_kept_example = flip-Reads_kept two_held behind_flip refl (
    one_more 3 (got (7 ∷ []) ∷ []) [] (2 ∷ 3 ∷ 7 ∷ []) behind_flip flipped_read
      (finished behind_flip))
