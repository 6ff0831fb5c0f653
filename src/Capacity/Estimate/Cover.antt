-- ===== src/Capacity/Estimate/Cover.antt =====
-- The estimates cover the simulated peaks.
use tensor_torrent.Base.{◌+◌, ◌≤◌, ◌≡◌, true, false, List, arith}
use tensor_torrent.Capacity.Ledger.{}
use tensor_torrent.Capacity.Ledger.Concurrency.{}
use tensor_torrent.Capacity.Estimate.{
  Peak, Footprint, RequestConfig, activation_of, device_of, host_of, host_need, device_need,
  nonempty_lease, estimate_request_capacity,
}

module _ (f : Footprint) (config : RequestConfig) (peaks : List Peak) where
  -- A request's host lease has room for the activations, and for the host peak beside the state; its
  -- device lease is nothing on a CPU, and else it has room for the device peak beside the resident
  -- parameters.
  pub estimate_request_capacity-covers :
      let lease = estimate_request_capacity f config peaks in
      (activation_of peaks ≤ lease.host_bytes)
      × (host_of peaks ≤ f.state_bytes + lease.host_bytes)
      × (f.cpu_only ≡ true → lease.device_bytes ≡ 0)
      × (f.cpu_only ≡ false → device_of peaks ≤ f.resident_device + lease.device_bytes)
  unfolding estimate_request_capacity nonempty_lease host_need device_need
  estimate_request_capacity-covers =
      (ground arith, ground arith, λ c. ground arith, λ c. ground arith)
