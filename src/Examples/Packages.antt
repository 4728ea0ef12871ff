-- ===== src/Examples/Packages.antt =====
-- benchmark_test at small numbers of pairs: its databases.
use multiport_network.Base.{◌≡◌, refl, length}
use multiport_network.Base.Buffers.{patch}
use multiport_network.Connection.{ok, fault, ◌>>=◌}
use multiport_network.MicroTest.Package.{setb, fill_text, sprintf_d, digits}
use multiport_network.Benchmark.{
  con_thread_database, con_batches, batch_package, fill_batch, fill_sub_package, fill_head,
  copy_package, batch_package_len, total_head_len, total_body_len,
}

-- One batch of two fills its database to the end.
one_batch : (con_thread_database setb 2 2 >>= λ db. ok (length db)) ≡ ok 60
unfolding con_thread_database con_batches batch_package fill_batch fill_sub_package fill_head
    copy_package batch_package_len total_head_len total_body_len fill_text sprintf_d digits patch
one_batch = refl

-- Two batches of two do not fit into theirs.
two_batches : con_thread_database setb 4 2 ≡ fault
unfolding con_thread_database con_batches batch_package fill_batch fill_sub_package fill_head
    copy_package batch_package_len total_head_len total_body_len fill_text sprintf_d digits patch
two_batches = refl
