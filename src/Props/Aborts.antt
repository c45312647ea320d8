-- ===== src/Props/Aborts.antt =====
-- storage/prop_store.rs: the decoder on a list that claims more items than there is memory for.
