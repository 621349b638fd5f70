-- ===== src/Tests.antt =====
-- Runs of the model at concrete inputs, and uses of the properties at inputs that meet their
-- hypotheses.
mod MagicTests
mod MacfileTests
mod Values
mod NetTests
mod ReleaseTests
mod Md5Tests
mod GetoptTests
mod ProxyTests
mod WolTests
mod MainTests
mod DeliverTests
mod LibTests
mod RunTests
