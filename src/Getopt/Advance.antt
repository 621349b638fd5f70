-- ===== src/Getopt/Advance.antt =====
-- The part of `_getopt_internal_r` that goes on to the next element of argv.
use wake_on_lan.Base.{ℕ, ◌+◌, Bool, not, ◌&&◌, Option, none, some, drop, ◌==◌, if◌then◌else◌}
use wake_on_lan.Getopt.State.{
  require_order, permute, Data, argc, arg, char_at, is_nonoption, clamp, gather, skip_nonoptions,
  end_options, is_dashes,
}

-- What a call returns, or that it goes on.
pub data Next : Type 0 where
  ends : Option ℕ → Data → Next
  goes : Data → Next

-- Behind `--` and the non-options: the end, an argument that is no option, or an option to decode.
unfoldable pub settle : Bool → Data → Next
settle has_long d =
    if d.optind == argc d
    then ends none
        (if d.first_nonopt == d.last_nonopt then d else record d { optind = d.first_nonopt })
    else if is_nonoption (arg d d.optind)
    then elim d.ordering [
      | require_order ↦ ends none d
      | _ ↦ ends (some 1) (record d { optarg = some (arg d d.optind); optind = d.optind + 1 })
    ]
    else goes (record d {
      nextchar =
          some (
            drop (if has_long && char_at (arg d d.optind) 1 == b'-' then 2 else 1)
              (arg d d.optind));
    })

-- `if (d->__nextchar == NULL || *d->__nextchar == 0)`
unfoldable pub advance : Bool → Data → Next
advance has_long d =
    let e = clamp d in
    let f : Data = elim e.ordering [ permute ↦ skip_nonoptions (gather e) | _ ↦ e ] in
    let g = if not (f.optind == argc f) && is_dashes (arg f f.optind) then end_options f else f in
    settle has_long g
