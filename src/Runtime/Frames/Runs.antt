-- ===== src/Runtime/Frames/Runs.antt =====
-- The theorems on frames at a concrete one: line 7, continuation 3.
use luauc.Prelude.{ℕ, ◌≡◌, refl, true, false, none, some}
use luauc.Runtime.Frames.{
  Proto, CallInfo, lua_function, aot_continuation_id, aot_line, remember_valid_aot_proto,
  validated_frame, done, in_frame, set_location, exchange_continuation,
}
use luauc.Runtime.Frames.State.{exchange_continuation_lem, set_location_lem}

abbrev a_proto : Proto
a_proto = record {
  execdata = none;
  has_code = false;
  has_codeentry = false;
  sizecode = 0;
  has_source = true;
  maxstacksize = 2;
  numparams = 0;
  nups = 0;
  is_vararg = 0;
  validated = true;
  hits = none;
}

abbrev frame_at : ℕ → CallInfo
frame_at aotstate = record {
  func = lua_function (record { proto = some a_proto; nupvalues = 0; stacksize = 2 });
  native = true;
  returns = false;
  handles = false;
  opyield = false;
  aotstate = aotstate;
}

exchanged_frame :
    exchange_continuation 1000 (frame_at 0x0030_0007) 5 ≡ done 3 (frame_at 0x0050_0007)
unfolding exchange_continuation in_frame validated_frame remember_valid_aot_proto
    aot_continuation_id aot_line
exchanged_frame = refl

exchange_continuation_lem_example :
    (3 ≡ aot_continuation_id 0x0030_0007)
    × (aot_continuation_id 0x0050_0007 ≡ 5)
    × (aot_line 0x0050_0007 ≡ aot_line 0x0030_0007)
exchange_continuation_lem_example =
    exchange_continuation_lem 1000 (frame_at 0x0030_0007) 5 3 (frame_at 0x0050_0007) exchanged_frame

located_frame : set_location 1000 (frame_at 0x0030_0007) 9 ≡ done 0 (frame_at 0x0030_0009)
unfolding set_location in_frame validated_frame remember_valid_aot_proto
located_frame = refl

set_location_lem_example :
    (aot_line 0x0030_0009 ≡ 9) × (aot_continuation_id 0x0030_0009 ≡ aot_continuation_id 0x0030_0007)
set_location_lem_example =
    set_location_lem 1000 (frame_at 0x0030_0007) 9 0 (frame_at 0x0030_0009) located_frame
