-- ===== src/Tests.antt =====
-- Concrete inputs, and the theorems of the library at them.
mod Fixtures
mod ClusterFixtures
mod AccessTests
mod ApiTests
mod FactoryTests
mod StoresTests
mod ProxyTests
mod DiscoveryTests
mod RequestTests
mod ListerTests
mod CollectionTests
mod SubscriptionTests
mod SummaryTests
mod SchemaStoreTests
mod AuthTests
mod WriterTests
