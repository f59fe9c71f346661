-- ===== src/Ring/Tests.antt =====
-- The circular buffer of kernel/lib/ringbuff.c on small inputs.
use hsunix.Base.{◌≡◌, refl, List, [], ◌∷◌, arith, take}
use hsunix.Ring.{Ring, put, get, copy_to}
use hsunix.Ring.Bounds.{IsValid}
use hsunix.Ring.Fifo.{contents, run, run_queue, run_refines, put_one, get_one, Call}
use hsunix.Ring.Bulk.{put_appends}

-- Four places, the bytes 8 and 9 round the end.
abbrev wrapped : Ring
wrapped = record {
  buf = 9 ∷ 0 ∷ 0 ∷ 8 ∷ [];
  base_size = 4;
  idle_size = 2;
  r_index = 3;
  w_index = 1;
}

-- The write index has just come back to 0.
abbrev at_start : Ring
at_start = record {
  buf = 5 ∷ 6 ∷ 7 ∷ 8 ∷ [];
  base_size = 4;
  idle_size = 2;
  r_index = 2;
  w_index = 0;
}

abbrev script : List Call
script =
    put_one 1
    ∷ get_one
    ∷ put_one 2
    ∷ put_one 3
    ∷ put_one 4
    ∷ get_one
    ∷ get_one
    ∷ get_one
    ∷ get_one
    ∷ get_one
    ∷ []

wrapped-IsValid : IsValid wrapped
wrapped-IsValid = ground arith

at_start-IsValid : IsValid at_start
at_start-IsValid = ground arith

contents-wrapped : contents wrapped ≡ 8 ∷ 9 ∷ []
contents-wrapped = refl

put_wraps :
    put wrapped (1 ∷ 2 ∷ 3 ∷ []) 3
    ≡ (2, record wrapped { buf = 9 ∷ 1 ∷ 2 ∷ 8 ∷ []; idle_size = 0; w_index = 3 })
unfolding put copy_to
put_wraps = refl

get_wraps : get wrapped 5 ≡ (2, 8 ∷ 9 ∷ [], record wrapped { idle_size = 4; r_index = 1 })
unfolding get
get_wraps = refl

run_refines_example : run wrapped script ≡ run_queue 4 (8 ∷ 9 ∷ []) script
run_refines_example = run_refines wrapped script wrapped-IsValid

put_appends_example :
    let (n, rb') = put wrapped (1 ∷ 2 ∷ 3 ∷ []) 3 in
    (n ≡ 2) × (contents rb' ≡ 8 ∷ 9 ∷ take n (1 ∷ 2 ∷ 3 ∷ [])) × IsValid rb'
put_appends_example = put_appends wrapped (1 ∷ 2 ∷ 3 ∷ []) 3 wrapped-IsValid (omega arith)
