-- ===== src/ResourceApi/Store.antt =====
-- packages/resource-api/src/store: the kind-generic store.
pub mod Filter
pub mod Memory
