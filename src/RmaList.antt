-- ===== src/RmaList.antt =====
-- micscif/micscif_rma_list.c: the lists of registered windows, sorted by offset, and of temporary
-- windows, sorted by virtual address, with their queries. Pages have 4096 bytes; a pointer to a
-- window is the window itself.
pub mod Insert
pub mod Query
pub mod Temp
mod Examples
use intel_xeon_phi_kernel_dr.Common.{
  ℕ, zero, suc, ◌+◌, ◌-◌, ◌*◌, ◌%◌, ◌^◌, ◌≡◌, min, bit_and, Bool, true, false, not, ◌&&◌, Option,
  none, some, List, [], ◌∷◌, ◌++◌, ltb, leb, ◌==◌, if◌then◌else◌,
}

abbrev pub page_bytes : ℕ
page_bytes = 4096

abbrev pub u64 : ℕ → ℕ
u64 n = n % 2 ^ 64

-- The members of `struct reg_range_t` that the lists use.
pub record RegRange : Type 0 where
  pub nr_pages : ℕ
  pub prot : ℕ
  pub offset : ℕ
  pub va_for_temp : ℕ
  pub get_put_ref_count : ℕ

pub data RangeRequest : Type 0 where
  window_partial window_single window_full : RangeRequest

pub record RmaReq : Type 0 where
  pub offset : ℕ
  pub nr_bytes : ℕ
  pub prot : ℕ
  pub type : RangeRequest
  pub va_for_temp : ℕ

pub data Status : Type 0 where
  done enxio eperm : Status

-- Both insertions walk to the first window whose key is larger.
pub insert_by : (RegRange → ℕ) → RegRange → List RegRange → List RegRange
insert_by key window [] = window ∷ []
insert_by key window (curr ∷ rest) =
    if ltb (key window) (key curr) then window ∷ curr ∷ rest else curr ∷ insert_by key window rest

pub micscif_insert_window : RegRange → List RegRange → List RegRange
micscif_insert_window window head = insert_by (λ w. w.offset) window head

-- `head->prev`, where the list is not empty.
pub tail_of : RegRange → List RegRange → RegRange
tail_of curr [] = curr
tail_of curr (next ∷ rest) = tail_of next rest

pub micscif_insert_tcw : RegRange → List RegRange → List RegRange
micscif_insert_tcw window [] = insert_by (λ w. w.va_for_temp) window []
micscif_insert_tcw window (curr ∷ rest) =
    if ltb (tail_of curr rest).va_for_temp window.va_for_temp
    then (curr ∷ rest) ++ (window ∷ [])
    else insert_by (λ w. w.va_for_temp) window (curr ∷ rest)

abbrev pub end_offset : RegRange → ℕ
end_offset w = u64 (w.offset + w.nr_pages * page_bytes)

abbrev pub end_va : RegRange → ℕ
end_va w = u64 (w.va_for_temp + w.nr_pages * page_bytes)

-- `(window->prot & req->prot) == req->prot`
abbrev pub allows : RmaReq → RegRange → Bool
allows req w = bit_and w.prot req.prot == req.prot

abbrev pub is_single : RangeRequest → Bool
is_single window_single = true
is_single _ = false

-- The answer once no bytes are left.
pub last_window : RangeRequest → ℕ → ℕ → Status
last_window window_partial offset end = done
last_window window_single offset end = done
last_window window_full offset end = if offset == end then done else enxio

-- The loop of `micscif_query_window`: the offset, the bytes left, and `*out_window`.
pub query_from : RmaReq → List RegRange → ℕ → ℕ → Option RegRange → Status × Option RegRange
query_from req [] offset left out = (enxio, out)
query_from req (window ∷ rest) offset left out =
    let end = end_offset window in
    let out' = if left == req.nr_bytes then some window else out in
    let step = min (end - offset) left in
    let next = query_from req rest (u64 (offset + step)) (left - step) out' in
    let skip = query_from req rest offset left out in
    if ltb offset window.offset
    then (enxio, out)
    else if ltb offset end
    then if not (allows req window)
      then (eperm, out)
      else if left - step == 0
      then (last_window req.type (u64 (offset + step)) end, out')
      else if is_single req.type
      then (enxio, out')
      else next
    else skip

pub micscif_query_window : RmaReq → List RegRange → Status × Option RegRange
micscif_query_window req head = query_from req head req.offset req.nr_bytes none

-- What `micscif_query_tcw` leaves: the windows, the request, the window that was found, and the
-- windows that went to the list `mi_rma_tc` for cleanup.
pub record TcwQuery : Type 0 where
  pub windows : List RegRange
  pub request : RmaReq
  pub out_window : Option RegRange
  pub mi_rma_tc : List RegRange

pub keep_window : RegRange → TcwQuery → TcwQuery
keep_window w q = record q { windows = w ∷ q.windows }

-- The loop of `micscif_query_tcw`. A window that is destroyed leaves the list.
pub query_tcw_from : RmaReq → List RegRange → TcwQuery
query_tcw_from req [] = record { windows = []; request = req; out_window = none; mi_rma_tc = [] }
query_tcw_from req (window ∷ rest) =
    let start_win = window.va_for_temp in
    let end_win = end_va window in
    let start = req.va_for_temp in
    let end = u64 (start + req.nr_bytes) in
    let stop : TcwQuery = record {
      windows = window ∷ rest;
      request = req;
      out_window = none;
      mi_rma_tc = [];
    } in
    let destroyed : TcwQuery = record {
      windows = rest;
      request = req;
      out_window = none;
      mi_rma_tc = window ∷ [];
    } in
    let further = query_tcw_from req rest in
    if ltb start start_win
    then if ltb end start_win
      then stop
      else if not (allows req window)
      then destroyed
      else record destroyed {
        request = record req {
          nr_bytes = u64 (req.nr_bytes + (if ltb end_win end then 0 else end_win - end));
        };
      }
    else if ltb end_win start
    then keep_window window further
    else if not (allows req window)
    then destroyed
    else if ltb end_win end
    then record destroyed {
      request = record req { va_for_temp = start_win; nr_bytes = u64 (end + 2 ^ 64 - start_win) };
    }
    else record { windows = window ∷ rest; request = req; out_window = some window; mi_rma_tc = [] }

pub micscif_query_tcw : RmaReq → List RegRange → TcwQuery
micscif_query_tcw req [] = query_tcw_from req []
micscif_query_tcw req (window ∷ rest) =
    if ltb (end_va (tail_of window rest)) req.va_for_temp
    then record { windows = window ∷ rest; request = req; out_window = none; mi_rma_tc = [] }
    else query_tcw_from req (window ∷ rest)

-- `micscif_rma_list_get_pages_check`: whether some window has pages that were not put back.
pub micscif_rma_list_get_pages_check : List RegRange → Bool
micscif_rma_list_get_pages_check [] = true
micscif_rma_list_get_pages_check (window ∷ rest) =
    if window.get_put_ref_count == 0 then micscif_rma_list_get_pages_check rest else false
