-- ===== src/Fat/Tests/Walks.antt =====
-- Walks over the clusters of the small volume, lookups in it, and the theorems about them.
use termob_kernel.Base.{◌≡◌, refl, true, none, some, [], ◌∷◌, arith, ◌-◌}
use termob_kernel.Block.{device_at, nth_device, read_device, read_one, read_loop}
use termob_kernel.Fat.{cluster_is_valid, entry_is_end, entry_is_bad, entry_is_reserved}
use termob_kernel.Fat.Table.{fat_offset, straddles, entry_value, read_entry_sectors, read_fat_entry}
use termob_kernel.Fat.Lfn.{lfn_reset}
use termob_kernel.Fat.Dir.{find_entry_callback}
use termob_kernel.Fat.Cursor.{is_broken}
use termob_kernel.Fat.Chain.{Exit, Next, next_cluster, Found, find_judge, find_result, walk_from}
use termob_kernel.Fat.ChainWalk.{
  sectors_of_chain, IsChain, AllFresh, walk_list, finish, walk_from-terminates, walk_from-list,
}
use termob_kernel.Fat.Lookup.{Opened, open_file}
use termob_kernel.Fat.Open.{Opens, open_file-Opens}
use termob_kernel.Fat.Content.{cluster_at}
use termob_kernel.Fat.InPlace.{InPlace}
use termob_kernel.Fat.Exact.{ReadsExactly, read_file-ReadsExactly}
use termob_kernel.Fat.Read.{min_size, read_file}
use termob_kernel.Fat.Tests.{blocks, volume, two_is_valid, file_of, no_bytes}

two_leads : next_cluster blocks volume 2 ≡ Next.goes_to 3
unfolding next_cluster read_fat_entry read_entry_sectors fat_offset straddles entry_value device_at
    nth_device read_device read_one read_loop entry_is_end is_broken entry_is_bad entry_is_reserved
    cluster_is_valid
two_leads = refl

three_ends : next_cluster blocks volume 3 ≡ Next.exit Exit.ended
unfolding next_cluster read_fat_entry read_entry_sectors fat_offset straddles entry_value device_at
    nth_device read_device read_one read_loop entry_is_end
three_ends = refl

three_is_valid : cluster_is_valid volume 3 ≡ true
unfolding cluster_is_valid
three_is_valid = refl

chain : IsChain blocks volume (2 ∷ 3 ∷ [])
chain = IsChain.link 2 3 [] two_leads (IsChain.last 3 three_ends)

chain_fresh : AllFresh volume (2 ∷ 3 ∷ [])
chain_fresh = (two_is_valid, (omega arith, tt), (three_is_valid, tt, tt))

walk_from-list_example :
    walk_from blocks volume (find_entry_callback (65 ∷ [])) find_judge find_result 2 none
    ≡ some (
        finish blocks volume (find_entry_callback (65 ∷ [])) find_judge find_result (
          walk_list blocks volume
            (find_entry_callback (65 ∷ []))
            find_judge
            find_result
            (sectors_of_chain volume (2 ∷ 3 ∷ []))
            lfn_reset
            none))
walk_from-list_example =
    walk_from-list blocks volume (find_entry_callback (65 ∷ [])) find_judge find_result 2 (3 ∷ [])
      none chain chain_fresh (omega arith)

walk_from-terminates_example :
    (r : Found) × (walk_from blocks volume
        (find_entry_callback (65 ∷ []))
        find_judge
        find_result
        2
        none
      ≡ some r)
walk_from-terminates_example =
    walk_from-terminates blocks volume (find_entry_callback (65 ∷ [])) find_judge find_result 2 none

open_file-Opens_example :
    (r : Opened) × (open_file blocks volume (47 ∷ 65 ∷ []) ≡ some r) × Opens volume r
open_file-Opens_example = open_file-Opens blocks volume (47 ∷ 65 ∷ [])

in_place : InPlace blocks volume 2 1000 0 (omega arith) (omega arith) (omega arith) (file_of 1000) 0
unfolding cluster_at
in_place = record {
  same_fs = refl;
  same_length = refl;
  current = refl;
  offset = refl;
  low = omega arith;
  high = omega arith;
}

read_file-ReadsExactly_example :
    ReadsExactly blocks volume 2 1000 0
      (omega arith)
      (omega arith)
      (omega arith)
      (min_size 700 (1000 - 0))
      (read_file blocks (file_of 1000) no_bytes 700)
read_file-ReadsExactly_example =
    read_file-ReadsExactly blocks volume 2 1000 0 (omega arith) (omega arith) (omega arith)
      (file_of 1000) 0 no_bytes 700 in_place refl (omega arith) (omega arith)
