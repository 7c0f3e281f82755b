-- ===== src/RmaList/Examples.antt =====
-- Lists of two windows.
use intel_xeon_phi_kernel_dr.Common.{ℕ, ◌+◌, ◌≤◌, ◌<◌, ◌≡◌, refl, true, some, [], ◌∷◌, arith}
use intel_xeon_phi_kernel_dr.RmaList.{
  RegRange, RmaReq, window_partial, done, last_window, query_from, micscif_query_window, insert_by,
  micscif_insert_window, micscif_insert_tcw, tail_of, keep_window, query_tcw_from,
  micscif_query_tcw,
}
use intel_xeon_phi_kernel_dr.RmaList.Insert.{
  SortedBy, micscif_insert_window-SortedBy, micscif_insert_tcw_lem,
}
use intel_xeon_phi_kernel_dr.RmaList.Query.{
  covered, Disjoint, micscif_query_window_covers, micscif_query_window_finds,
}
use intel_xeon_phi_kernel_dr.RmaList.Temp.{
  Hit, Grown, micscif_query_tcw-Hit, micscif_query_tcw-Grown,
}

abbrev low : RegRange
low = record { nr_pages = 1; prot = 3; offset = 0; va_for_temp = 0; get_put_ref_count = 0 }

abbrev high : RegRange
high = record { nr_pages = 2; prot = 1; offset = 4096; va_for_temp = 8192; get_put_ref_count = 0 }

abbrev reads : RmaReq
reads = record { offset = 4090; nr_bytes = 10; prot = 1; type = window_partial; va_for_temp = 9000 }

found_both : (micscif_query_window reads (low ∷ high ∷ [])).0 ≡ done
unfolding micscif_query_window query_from last_window
found_both = refl

micscif_query_window_covers_example : covered reads (low ∷ high ∷ []) 4097 ≡ true
micscif_query_window_covers_example =
    micscif_query_window_covers reads (low ∷ high ∷ []) (omega arith) found_both 4097 (omega arith)
      (omega arith)

apart : Disjoint 0 (low ∷ high ∷ [])
apart = (
  record { low = omega arith; ends = omega arith },
  (record { low = omega arith; ends = omega arith }, tt),
)

both_cover : (x : ℕ) → 4090 ≤ x → x < 4090 + 10 → covered reads (low ∷ high ∷ []) x ≡ true
both_cover x from to = ground arith

micscif_query_window_finds_example : (micscif_query_window reads (low ∷ high ∷ [])).0 ≡ done
micscif_query_window_finds_example =
    micscif_query_window_finds reads (low ∷ high ∷ []) refl apart (omega arith) both_cover

micscif_insert_window-SortedBy_example :
    SortedBy (λ r. r.offset) 0 (micscif_insert_window low (high ∷ []))
micscif_insert_window-SortedBy_example =
    micscif_insert_window-SortedBy low (high ∷ []) (omega arith, tt)

micscif_insert_tcw_lem_example :
    micscif_insert_tcw high (low ∷ []) ≡ insert_by (λ r. r.va_for_temp) high (low ∷ [])
micscif_insert_tcw_lem_example = micscif_insert_tcw_lem high (low ∷ []) (omega arith, tt)

hits_high : (micscif_query_tcw reads (low ∷ high ∷ [])).out_window ≡ some high
unfolding micscif_query_tcw query_tcw_from tail_of keep_window
hits_high = refl

micscif_query_tcw-Hit_example :
    Hit reads (low ∷ high ∷ []) high (micscif_query_tcw reads (low ∷ high ∷ []))
micscif_query_tcw-Hit_example =
    micscif_query_tcw-Hit reads (low ∷ high ∷ []) high (omega arith) hits_high

micscif_query_tcw-Grown_example : Grown reads (micscif_query_tcw reads (high ∷ [])).request
micscif_query_tcw-Grown_example = micscif_query_tcw-Grown reads (high ∷ []) (omega arith)
